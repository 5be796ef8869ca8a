-- ===== src/Blob/Names/RoundTrip.antt =====
-- A key is read back from its file name (core/src/blob/store.rs), so that no two keys share a file.
use braid_rs.Prelude.Strings.{eq_iff, str_eq}
use braid_rs.Prelude.Chars.{lower, strip_prefix, codes, to_lowercase, trim_start_matches}
use braid_rs.Prelude.{
  Bool-cases, Text, [], ap, arith, false, inl, inr, map, refl, some, true, ℕ, ◌%◌, ◌++◌, ◌/◌, ◌<◌,
  ◌==◌, ◌∷◌, ◌≡◌, ◌≤◌, subst, sym, All, Bool, ◌||◌, ◌∙◌, List, none,
}
use braid_rs.Blob.Names.{
  decode_percent, encode_char, encode_unsafe, hex_pair, hex_value, is_unsafe, swap_slash,
  upper_digit, byte_or, is_reserved, is_numbered, is_reserved_name, before_dot, encode_stem,
  encode_third, Letters, before_last_dot, bits_to_hex, case_bits, decode_filename, encode_filename,
  lower_digit, nibbles, or_zero, pad,
}

hex_value-upper_digit : (n : ℕ) → n < 16 → hex_value (upper_digit n) ≡ some n
unfolding hex_value upper_digit
hex_value-upper_digit n h = ground arith

upper_digit-ne : (n : ℕ) → (upper_digit n == b'+') ≡ false
unfolding upper_digit
upper_digit-ne n = ground arith

hex_pair-encode :
    (c : ℕ) → c < 256 → hex_pair (upper_digit (c % 256 / 16)) (upper_digit (c % 16)) ≡ some c
unfolding hex_pair
hex_pair-encode c h =
    rw
      (
        upper_digit-ne (c % 256 / 16),
        hex_value-upper_digit (c % 256 / 16) (omega arith),
        hex_value-upper_digit (c % 16) (omega arith),
      )
      (ap some (omega arith))

-- A percent sign with two digits is one character, and any other character stands for itself.
decode-encode_char :
    (c : ℕ) (rest : Text)
    → c < 256
    → decode_percent (encode_char c ++ rest) ≡ c ∷ decode_percent rest
unfolding decode_percent encode_char
decode-encode_char c rest h =
    ap (λ o. byte_or o (upper_digit (c % 256 / 16)) (upper_digit (c % 16)) ++ decode_percent rest)
      (hex_pair-encode c h)

decode-plain :
    (c : ℕ) (rest : Text)
    → (c == b'%') ≡ false
    → decode_percent (c ∷ rest) ≡ c ∷ decode_percent rest
unfolding decode_percent
decode-plain c [] h = refl
decode-plain c (a ∷ []) h = rw h refl
decode-plain c (a ∷ b ∷ rest) h = rw h refl

unsafe_small : (c : ℕ) → is_unsafe c ≡ true → c < 256
unfolding is_unsafe
unsafe_small c h = ground arith

safe_plain : (c : ℕ) → is_unsafe c ≡ false → (c == b'%') ≡ false
unfolding is_unsafe
safe_plain c h = ground arith

decode-encode_unsafe : (s : Text) → decode_percent (encode_unsafe s) ≡ s
unfolding encode_unsafe decode_percent
decode-encode_unsafe [] = refl
decode-encode_unsafe (c ∷ s) = elim (Bool-cases (is_unsafe c)) [
  | inl e ↦
      rw (e, decode-encode_char c (encode_unsafe s) (unsafe_small c e), decode-encode_unsafe s) refl
  | inr e ↦ rw (e, decode-plain c (encode_unsafe s) (safe_plain c e), decode-encode_unsafe s) refl
]

swap_slash_twice : (s : Text) → map swap_slash (map swap_slash s) ≡ s
unfolding swap_slash
swap_slash_twice [] = refl
swap_slash_twice (c ∷ s) = ground (arith, swap_slash_twice s)

-- The letters of the reserved names.
abbrev IsLetter : ℕ → Type 0
IsLetter c = (b'a' ≤ c) × (c ≤ b'z')

abbrev StartsAs : Text → Type 0
StartsAs (x ∷ y ∷ z ∷ _) = IsLetter x × IsLetter y × IsLetter z
StartsAs _ = ⊥

str_eq-StartsAs : (p name : Text) → str_eq name p ≡ true → StartsAs p → StartsAs name
str_eq-StartsAs p name h k = subst StartsAs (sym ((eq_iff name p).0 h)) k

is_numbered-StartsAs :
    (x y z : ℕ) (name : Text)
    → is_numbered (x ∷ y ∷ z ∷ []) name ≡ true
    → IsLetter x × IsLetter y × IsLetter z
    → StartsAs name
unfolding is_numbered strip_prefix
is_numbered-StartsAs x y z [] h k = cc
is_numbered-StartsAs x y z (a ∷ []) h k = ground arith
is_numbered-StartsAs x y z (a ∷ b ∷ []) h k = ground arith
is_numbered-StartsAs x y z (a ∷ b ∷ c ∷ name) h k = ground arith

or_elim : {P : Type 0} (a b : Bool) → (a || b) ≡ true → (a ≡ true → P) → (b ≡ true → P) → P
or_elim true b h f g = f refl
or_elim false b h f g = g h

is_reserved_name-StartsAs : (name : Text) → is_reserved_name name ≡ true → StartsAs name
unfolding is_reserved_name
is_reserved_name-StartsAs name h =
    or_elim _ _ h
      (λ h1.
        or_elim _ _ h1
          (λ h2.
            or_elim _ _ h2
              (λ h3.
                or_elim _ _ h3
                  (λ h4.
                    or_elim _ _ h4 (λ e. str_eq-StartsAs (codes "con") name e (omega arith))
                      (λ e. str_eq-StartsAs (codes "prn") name e (omega arith)))
                  (λ e. str_eq-StartsAs (codes "aux") name e (omega arith)))
              (λ e. str_eq-StartsAs (codes "nul") name e (omega arith)))
          (λ e. is_numbered-StartsAs b'c' b'o' b'm' name e (omega arith)))
      (λ e. is_numbered-StartsAs b'l' b'p' b't' name e (omega arith))

before_dot-StartsAs : (s : Text) → StartsAs (before_dot s) → StartsAs s
unfolding before_dot
before_dot-StartsAs [] h = h
before_dot-StartsAs (a ∷ []) h = ground arith
before_dot-StartsAs (a ∷ b ∷ []) h = ground arith
before_dot-StartsAs (a ∷ b ∷ c ∷ s) h = ground arith

-- A letter in any case is no percent sign and fits a byte.
lower_letter : (c : ℕ) → IsLetter (lower c) → ((c == b'%') ≡ false) × (c < 256)
unfolding lower
lower_letter c h = ground arith

decode-encode_third :
    (s : Text) → StartsAs (to_lowercase s) → decode_percent (encode_third s) ≡ decode_percent s
unfolding encode_third to_lowercase
decode-encode_third [] h = absurd h
decode-encode_third (a ∷ []) h = absurd h
decode-encode_third (a ∷ b ∷ []) h = absurd h
decode-encode_third (a ∷ b ∷ c ∷ rest) h =
    let plain_a = (lower_letter a h.0).0 in
    let plain_b = (lower_letter b h.1).0 in
    rw
      (
        decode-plain a (b ∷ (encode_char c ++ rest)) plain_a,
        decode-plain b (encode_char c ++ rest) plain_b,
        decode-encode_char c rest (lower_letter c h.2).1,
        decode-plain a (b ∷ c ∷ rest) plain_a,
        decode-plain b (c ∷ rest) plain_b,
        decode-plain c rest (lower_letter c h.2).0,
      )
      refl

decode-encode_stem : (key : Text) → map swap_slash (decode_percent (encode_stem key)) ≡ key
unfolding encode_stem is_reserved
decode-encode_stem key =
    let s = encode_unsafe (map swap_slash key) in
    let plain : map swap_slash (decode_percent s) ≡ key =
      ap (map swap_slash) (decode-encode_unsafe (map swap_slash key)) ∙ swap_slash_twice key in
    elim (Bool-cases (is_reserved s)) [
      | inl e ↦
          rw
            (
              e,
              decode-encode_third s
                  (before_dot-StartsAs (to_lowercase s) (is_reserved_name-StartsAs _ e)),
            )
            plain
      | inr e ↦ rw e plain
    ]

-- The postfix has no dot.
abbrev NoDot : Text → Type 0
NoDot = All (λ c. (c == b'.') ≡ false)

nibbles-NoDot : (bits : List ℕ) → NoDot (nibbles bits)
unfolding nibbles lower_digit
nibbles-NoDot (a ∷ b ∷ c ∷ d ∷ bits) = (ground arith, nibbles-NoDot bits)
nibbles-NoDot [] = tt
nibbles-NoDot (a ∷ []) = tt
nibbles-NoDot (a ∷ b ∷ []) = tt
nibbles-NoDot (a ∷ b ∷ c ∷ []) = tt

trim-NoDot : (p : ℕ → Bool) (s : Text) → NoDot s → NoDot (trim_start_matches p s)
unfolding trim_start_matches
trim-NoDot p [] h = tt
trim-NoDot p (c ∷ s) h = elim (Bool-cases (p c)) [
  | inl e ↦ rw e (trim-NoDot p s h.1)
  | inr e ↦ rw e h
]

or_zero-NoDot : (s : Text) → NoDot s → NoDot (or_zero s)
or_zero-NoDot [] h = (refl, tt)
or_zero-NoDot (c ∷ s) h = h

bits_to_hex-NoDot : (bits : List ℕ) → NoDot (bits_to_hex bits)
unfolding bits_to_hex
bits_to_hex-NoDot bits =
    or_zero-NoDot _ (trim-NoDot (λ c. c == b'0') (nibbles (pad bits)) (nibbles-NoDot (pad bits)))

no_last_dot : (s : Text) → NoDot s → before_last_dot s ≡ none
unfolding before_last_dot
no_last_dot [] h = refl
no_last_dot (c ∷ s) h = rw (no_last_dot s h.1, h.0, before_last_dot) refl

before_last_dot-append : (s t : Text) → NoDot t → before_last_dot (s ++ (b'.' ∷ t)) ≡ some s
unfolding before_last_dot
before_last_dot-append [] t h = rw (no_last_dot t h, before_last_dot) refl
before_last_dot-append (c ∷ s) t h = rw (before_last_dot-append s t h, before_last_dot) refl

-- Every key is read back from its file name, whatever characters it holds and whatever letters
-- Unicode has: unsafe characters, percent signs, slashes and reserved device names included.
pub decode_filename-encode_filename :
    (letters : Letters) (key : Text) → decode_filename (encode_filename letters key) ≡ key
unfolding decode_filename encode_filename
decode_filename-encode_filename letters key =
    let postfix = bits_to_hex (case_bits letters key) in
    rw
      (
        before_last_dot-append (encode_stem key) postfix
            (bits_to_hex-NoDot (case_bits letters key)),
        decode_filename,
      )
      (decode-encode_stem key)

-- Two keys never share a file.
pub encode_filename-injective :
    (letters : Letters) (j k : Text) → encode_filename letters j ≡ encode_filename letters k → j ≡ k
encode_filename-injective letters j k e =
    sym (decode_filename-encode_filename letters j)
    ∙ ap decode_filename e
    ∙ decode_filename-encode_filename letters k
