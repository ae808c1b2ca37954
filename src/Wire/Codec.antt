-- ===== src/Wire/Codec.antt =====
-- Values as bytes of 8 bits in fields of a fixed width, for a concrete representation of packets.
use tizcord.Base.{
  ℕ, zero, suc, ◌+◌, ◌*◌, ◌/◌, ◌%◌, ◌^◌, ◌<◌, ◌≡◌, refl, ap, ◌∙◌, List, [], ◌∷◌, ◌++◌, Text, false,
  if◌then◌else◌, ◌==◌, length, length-append, append_assoc, drop, arith,
}
use tizcord.Wire.Abi.{TextFits}

pub record Octet : Type 0 where
  pub value : ℕ
  pub small : value < 256

abbrev pub octet : ℕ → Octet
octet n = record { value = n % 256; small = omega arith }

-- A field of `width` bytes: the values that fit are read back, whatever follows.
pub record Codec (A : Type 0) : Type 1 where
  pub Good : A → Type 0
  pub width : ℕ
  pub put : A → List Octet
  pub get : List Octet → A
  pub length-put : (a : A) → length (put a) ≡ width
  pub get-put : (a : A) (rest : List Octet) → Good a → get (put a ++ rest) ≡ a

pub drop-append : {A : Type 0} (n : ℕ) (xs ys : List A) → length xs ≡ n → drop n (xs ++ ys) ≡ ys
drop-append zero [] ys h = refl
drop-append zero (x ∷ xs) ys h = absurd (omega arith)
drop-append (suc n) [] ys h = absurd (omega arith)
drop-append (suc n) (x ∷ xs) ys h = drop-append n xs ys (omega (arith, h))

-- The `n` bytes of a number, the lowest first.
abbrev pub put_word : ℕ → ℕ → List Octet
put_word zero v = []
put_word (suc n) v = octet v ∷ put_word n (v / 256)

abbrev pub get_word : ℕ → List Octet → ℕ
get_word zero bs = 0
get_word (suc n) [] = 0
get_word (suc n) (b ∷ bs) = b.value + 256 * get_word n bs

pub length-put_word : (n v : ℕ) → length (put_word n v) ≡ n
length-put_word zero v = refl
length-put_word (suc n) v = ap suc (length-put_word n (v / 256))

div_fits : (v m : ℕ) → v < 256 * m → v / 256 < m
div_fits v m h = omega (arith, h)

pow_step : (n : ℕ) → 256 ^ suc n ≡ 256 * 256 ^ n
pow_step n = omega arith

pub get_word-put_word :
    (n v : ℕ) (rest : List Octet) → v < 256 ^ n → get_word n (put_word n v ++ rest) ≡ v
get_word-put_word zero v rest h = omega (arith, h)
get_word-put_word (suc n) v rest h =
    let fits : v / 256 < 256 ^ n = div_fits v (256 ^ n) (rw (← pow_step n) h) in
    let higher = get_word-put_word n (v / 256) rest fits in omega (arith, higher)

abbrev pub word : ℕ → Codec ℕ
word n = record {
  Good = λ v. v < 256 ^ n;
  width = n;
  put = put_word n;
  get = get_word n;
  length-put = length-put_word n;
  get-put = get_word-put_word n;
}

-- A text in an array of `n` bytes, the rest of which is zero.
abbrev pub put_text : ℕ → Text → List Octet
put_text zero t = []
put_text (suc n) [] = octet 0 ∷ put_text n []
put_text (suc n) (c ∷ t) = octet c ∷ put_text n t

abbrev pub get_text : ℕ → List Octet → Text
get_text zero bs = []
get_text (suc n) [] = []
get_text (suc n) (b ∷ bs) = let rest = get_text n bs in if b.value == 0 then [] else b.value ∷ rest

pub length-put_text : (n : ℕ) (t : Text) → length (put_text n t) ≡ n
length-put_text zero t = refl
length-put_text (suc n) [] = ap suc (length-put_text n [])
length-put_text (suc n) (c ∷ t) = ap suc (length-put_text n t)

pub get_text-put_text :
    (n : ℕ) (t : Text) (rest : List Octet) → TextFits n t → get_text n (put_text n t ++ rest) ≡ t
get_text-put_text zero t rest h = absurd (omega (arith, h.0))
get_text-put_text (suc n) [] rest h = refl
get_text-put_text (suc n) (c ∷ t) rest h =
    let same : c % 256 ≡ c = omega (arith, h.1.0.1) in
    let visible : (c == 0) ≡ false = ground (arith, h.1.0.0) in
    rw (same, visible, get_text-put_text n t rest (omega (arith, h.0), h.1.1)) refl

abbrev pub text : ℕ → Codec Text
text n = record {
  Good = TextFits n;
  width = n;
  put = put_text n;
  get = get_text n;
  length-put = length-put_text n;
  get-put = get_text-put_text n;
}

module _ {A B : Type 0} where
  -- One field behind the other.
  abbrev pub both : Codec A → Codec B → Codec (A × B)
  both c d = record {
    Good = λ p. c.Good p.0 × d.Good p.1;
    width = c.width + d.width;
    put = λ p. c.put p.0 ++ d.put p.1;
    get = λ bs. (c.get bs, d.get (drop c.width bs));
    length-put = λ p.
        omega (arith, length-append (c.put p.0) (d.put p.1), c.length-put p.0, d.length-put p.1);
    get-put = λ p rest h.
        rw
          (
            append_assoc (c.put p.0) (d.put p.1) rest,
            drop-append c.width (c.put p.0) (d.put p.1 ++ rest) (c.length-put p.0),
            c.get-put p.0 (d.put p.1 ++ rest) h.0,
            d.get-put p.1 rest h.1,
          )
          refl;
  }

  -- The same bytes for another type of values.
  abbrev pub via :
      (c : Codec A) (out : B → A) (back : A → B) → ((b : B) → back (out b) ≡ b) → Codec B
  via c out back same = record {
    Good = λ b. c.Good (out b);
    width = c.width;
    put = λ b. c.put (out b);
    get = λ bs. back (c.get bs);
    length-put = λ b. c.length-put (out b);
    get-put = λ b rest h. ap back (c.get-put (out b) rest h) ∙ same b;
  }
