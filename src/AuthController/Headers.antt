-- ===== src/AuthController/Headers.antt =====
-- The header `Cookie` that a browser sends back to auth.controller.ts.
use expenseflow.Common.{
  text_eq, suc, All, subst, has_no, split_on-plain, split_on-append, if◌then◌else◌, ◌&&◌, is_empty,
  ltb, text_eq_iff, Bool-cases, ℕ, ◌+◌, ◌≡◌, refl, ap, ◌∙◌, Text, text_is_eq, number_eq, List, [],
  ◌∷◌, ◌++◌, map, find, all, Option, none, some, Bool, true, false, not, ◌==◌, length, starts_with,
  slice_from, split_on, ok, arith, inl, inr,
}
use expenseflow.AuthController.Cookies.{Script, decoded_value, get_cookie}

abbrev pub Pair : Type 0
Pair = Text × Text

-- `name=value`, as Express writes it.
abbrev pub pair_text : (Text → Text) → Pair → Text
pair_text encode (name, value) = name ++ b'=' ∷ encode value

-- The header that carries some cookies, in their order.
unfoldable pub cookie_header : (Text → Text) → List Pair → Text
cookie_header encode [] = []
cookie_header encode (p ∷ []) = pair_text encode p
cookie_header encode (p ∷ q ∷ ps) =
    pair_text encode p ++ b';' ∷ b' ' ∷ cookie_header encode (q ∷ ps)

-- The value of the first cookie of a name.
abbrev pub first_value : Text → List Pair → Option Text
first_value name [] = none
first_value name (p ∷ ps) = if p.0 == name then some p.1 else first_value name ps

-- A name that a cookie may have: visible ASCII without `;` and `=`.
abbrev pub is_name_char : ℕ → Bool
is_name_char c = ltb 32 c && ltb c 127 && not (c == b';') && not (c == b'=')

abbrev pub is_name : Text → Bool
is_name name = not (is_empty name) && all is_name_char name

-- JavaScript's functions on what Express writes for a cookie: the encoded value has no `;`, is
-- decoded to the value, and `trim` takes the space off in front of it.
pub record IsScript (script : Script) (encode : Text → Text) : Type 0 where
  pub encoded_plain : (value : Text) → has_no b';' (encode value) ≡ true
  pub decoded : (value : Text) → script.decode_uri_component (encode value) ≡ some value
  pub trim_empty : script.trim [] ≡ []
  pub trim_first :
      (name value : Text)
      → is_name name ≡ true
      → script.trim (name ++ b'=' ∷ encode value) ≡ name ++ b'=' ∷ encode value
  pub trim_next :
      (name value : Text)
      → is_name name ≡ true
      → script.trim (b' ' ∷ name ++ b'=' ∷ encode value) ≡ name ++ b'=' ∷ encode value

name-plain :
    (sep : ℕ) (name : Text)
    → all is_name_char name ≡ true
    → is_name_char sep ≡ false
    → has_no sep name ≡ true
name-plain sep [] h k = refl
name-plain sep (c ∷ name) h k = ground (arith, name-plain sep name)

plain-append :
    (sep : ℕ) (s t : Text) → has_no sep s ≡ true → has_no sep t ≡ true → has_no sep (s ++ t) ≡ true
plain-append sep [] t h k = k
plain-append sep (c ∷ s) t h k = ground (arith, plain-append sep s t)

-- Texts with an equals sign behind them start the same way only if they are the same.
starts_with-name :
    (a b t : Text)
    → has_no b'=' a ≡ true
    → has_no b'=' b ≡ true
    → starts_with (a ++ b'=' ∷ t) (b ++ b'=' ∷ []) ≡ (a == b)
unfolding starts_with text_eq
starts_with-name [] [] t h k = ground arith
starts_with-name [] (d ∷ b) t h k = ground arith
starts_with-name (c ∷ a) [] t h k = ground arith
starts_with-name (c ∷ a) (d ∷ b) t h k = ground (arith, starts_with-name a b t)

empty-name : (name : Text) → starts_with [] (name ++ b'=' ∷ []) ≡ false
unfolding starts_with
empty-name [] = refl
empty-name (c ∷ name) = refl

slice_from-name : (a t : Text) → slice_from (length a + 1) (a ++ b'=' ∷ t) ≡ t
unfolding slice_from
slice_from-name [] t = refl
slice_from-name (c ∷ a) t =
    let more : suc (length a) + 1 ≡ suc (length a + 1) = omega arith in
    rw more (slice_from-name a t)

spaced_parts :
    (t part : Text) (parts : List Text)
    → split_on b';' t ≡ part ∷ parts
    → split_on b';' (b' ' ∷ t) ≡ (b' ' ∷ part) ∷ parts
unfolding split_on
spaced_parts t part parts e = rw e refl

module _ (script : Script) (encode : Text → Text) (laws : IsScript script encode) where
  pair-plain : (p : Pair) → is_name p.0 ≡ true → has_no b';' (pair_text encode p) ≡ true
  pair-plain p h =
      plain-append b';' p.0 (b'=' ∷ encode p.1) (name-plain b';' p.0 (ground arith) refl)
        (let e = laws.encoded_plain p.1 in ground arith)

  split_header :
      (p : Pair) (ps : List Pair)
      → All (λ q. is_name q.0 ≡ true) (p ∷ ps)
      → split_on b';' (cookie_header encode (p ∷ ps))
        ≡ pair_text encode p ∷ map (λ q. b' ' ∷ pair_text encode q) ps
  unfolding cookie_header
  split_header p [] (h, _) = split_on-plain b';' (pair_text encode p) (pair-plain p h)
  split_header p (q ∷ ps) (h, hs) =
      split_on-append b';' (pair_text encode p) (b' ' ∷ cookie_header encode (q ∷ ps))
        (pair-plain p h)
      ∙ ap (λ parts. pair_text encode p ∷ parts) (after_space (split_header q ps hs))
    where
      after_space :
          split_on b';' (cookie_header encode (q ∷ ps))
            ≡ pair_text encode q ∷ map (λ r. b' ' ∷ pair_text encode r) ps
          → split_on b';' (b' ' ∷ cookie_header encode (q ∷ ps))
            ≡ (b' ' ∷ pair_text encode q) ∷ map (λ r. b' ' ∷ pair_text encode r) ps
      after_space e = spaced_parts (cookie_header encode (q ∷ ps)) _ _ e

  trimmed :
      (ps : List Pair)
      → All (λ q. is_name q.0 ≡ true) ps
      → map script.trim (map (λ q. b' ' ∷ pair_text encode q) ps) ≡ map (pair_text encode) ps
  trimmed [] hs = refl
  trimmed (p ∷ ps) (h, hs) = rw (laws.trim_next p.0 p.1 h, trimmed ps hs) refl

  find_sent :
      (name : Text) (ps : List Pair)
      → is_name name ≡ true
      → All (λ q. is_name q.0 ≡ true) ps
      → decoded_value script name
          (find (λ value. starts_with value (name ++ b'=' ∷ [])) (map (pair_text encode) ps))
        ≡ ok (first_value name ps)
  find_sent name [] h hs = refl
  find_sent name (p ∷ ps) h (k, ks) =
      let same : starts_with (pair_text encode p) (name ++ b'=' ∷ []) ≡ (p.0 == name) =
        starts_with-name p.0 name (encode p.1) (name-plain b'=' p.0 (ground arith) refl)
          (name-plain b'=' name (ground arith) refl) in
      rw same (elim (Bool-cases (p.0 == name)) [
        | inl q ↦
            let named : p.0 ≡ name = (text_eq_iff p.0 name).0 q in
            rw q (
              subst (λ n. decoded_value script n (some (pair_text encode p)) ≡ ok (some p.1)) named
                (rw (slice_from-name p.0 (encode p.1), laws.decoded p.1) refl))
        | inr q ↦ rw q (find_sent name ps h ks)
      ])

  empty_header :
      (name : Text)
      → decoded_value script name (
          find
            (λ value. starts_with value (name ++ b'=' ∷ []))
            (map script.trim (split_on b';' (cookie_header encode []))))
        ≡ ok none
  unfolding cookie_header split_on
  empty_header name = rw laws.trim_empty (rw (empty-name name) refl)

  -- From the header that a browser makes of any cookies with valid names, `getCookie` reads the
  -- value of the first cookie with the name asked for, or nothing if there is none; encoded
  -- values are assumed to be decoded and to have no semicolon.
  pub get_cookie-cookie_header :
      (name : Text) (ps : List Pair)
      → is_name name ≡ true
      → All (λ q. is_name q.0 ≡ true) ps
      → get_cookie script (some (cookie_header encode ps)) name ≡ ok (first_value name ps)
  unfolding get_cookie
  get_cookie-cookie_header name [] h hs = empty_header name
  get_cookie-cookie_header name (p ∷ ps) h (k, ks) =
      rw (split_header p ps (k, ks), laws.trim_first p.0 p.1 k, trimmed ps ks)
        (find_sent name (p ∷ ps) h (k, ks))
