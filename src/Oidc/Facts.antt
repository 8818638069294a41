-- ===== src/Oidc/Facts.antt =====
-- The tests of oidc.service.ts on optional values, lists and answers, and what they say.
use expenseflow.Common.{
  ℕ, ◌*◌, ◌<◌, ◌≡◌, ◌≢◌, refl, ap, Text, text_is_eq, text_eq_iff, number_eq, List, [], ◌∷◌, Option,
  none, some, Bool, true, false, not, In, find-some, ok, err, Error, arith,
}
use expenseflow.Oidc.Flow.{JsonWebKey}
use expenseflow.Oidc.Requests.{Answer, body_or}
use expenseflow.Oidc.Exchange.{is_text, is_expired, is_unverified, filled, find_key, three_parts}

pub is_text-some : (o : Option Text) (t : Text) → not (is_text o t) ≡ false → o ≡ some t
is_text-some none t h = absurd (cc (h))
is_text-some (some s) t h = ap some ((text_eq_iff s t).0 (ground arith))

pub filled-some : (o : Option Text) (t : Text) → filled o ≡ some t → o ≡ some t
filled-some none t h = absurd (cc (h))
filled-some (some s) t h = ground arith

pub not_expired :
    (now : ℕ) (o : Option ℕ)
    → is_expired now o ≡ false
    → (exp : ℕ) × (o ≡ some exp) × (now < exp * 1000)
not_expired now none h = absurd (cc (h))
not_expired now (some exp) h = (exp, refl, ground arith)

pub not_unverified : (o : Option Bool) → is_unverified o ≡ false → o ≢ some false
not_unverified none h e = absurd (cc (e))
not_unverified (some true) h e = absurd (cc (e))
not_unverified (some false) h e = absurd (cc (h))

pub three_parts-some :
    (ps : List Text) (a b c : Text) → three_parts ps ≡ some (a, b, c) → ps ≡ a ∷ b ∷ c ∷ []
three_parts-some [] a b c e = absurd (cc (e))
three_parts-some (x ∷ []) a b c e = absurd (cc (e))
three_parts-some (x ∷ y ∷ []) a b c e = absurd (cc (e))
three_parts-some (x ∷ y ∷ z ∷ []) a b c e = ground arith
three_parts-some (x ∷ y ∷ z ∷ w ∷ ps) a b c e = absurd (cc (e))

pub find_key-some :
    (kid : Text) (o : Option (List JsonWebKey)) (key : JsonWebKey)
    → find_key kid o ≡ some key
    → (keys : List JsonWebKey) × (o ≡ some keys) × In key keys × (key.kid ≡ some kid)
find_key-some kid none key e = absurd (cc (e))
find_key-some kid (some keys) key e =
    let (m, h) = find-some (λ c. is_text c.kid kid) keys key e in
    (keys, refl, m, is_text-some key.kid kid (ground arith))

pub body_or-ok :
    {A : Type 0} (a : Answer A) (x : Error) (b : A)
    → body_or a (err x) ≡ ok b
    → a ≡ Answer.answered b
body_or-ok (Answer.answered c) x b e = cc (e)
body_or-ok Answer.not_ok x b e = absurd (cc (e))
body_or-ok Answer.failed x b e = absurd (cc (e))
