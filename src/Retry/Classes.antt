-- ===== src/Retry/Classes.antt =====
-- classifyRetry of runner/retry_policy.go: what it flags for a retry.
use trilha_runner.Prelude.{
  ◌≡◌, ◌↔◌, ◌⊎◌, inl, inr, true, false, List, [], ◌∷◌, Option, none, some, arith, Text, to_lower,
  contains, contains-Occurs, contains-append, Occurs, Any, Bool-cases,
}
use trilha_runner.Retry.{
  Failure, provider_transient, contains_any, environment_words, timeout_words, refusal_words,
  busy_words, classify, classify_retry,
}

pub contains_any-Any :
    (s : Text) (ws : List Text) → contains_any s ws ≡ true → Any (λ w. Occurs w s) ws
unfolding contains_any
contains_any-Any s [] h = cc
contains_any-Any s (w ∷ ws) h = elim (Bool-cases (contains s w)) [
  | inl now ↦ inl (contains-Occurs s w now)
  | inr later ↦ inr (contains_any-Any s ws (rw later at h))
]

pub Any-contains_any :
    (s : Text) (ws : List Text) → Any (λ w. Occurs w s) ws → contains_any s ws ≡ true
unfolding contains_any
Any-contains_any s [] h = absurd h
Any-contains_any s (w ∷ ws) (inl (before, after, e)) =
    let found : contains s w ≡ true = rw e (contains-append before w after) in rw found
Any-contains_any s (w ∷ ws) (inr h) = ground (arith, Any-contains_any s ws h)

-- Some of the words occur in the text.
pub Mentions : Text → List Text → Type 0
Mentions s ws = Any (λ w. Occurs w s) ws

contains_any_iff : (s : Text) (ws : List Text) → (contains_any s ws ≡ true) ↔ Mentions s ws
unfolding Mentions
contains_any_iff s ws = (contains_any-Any s ws, Any-contains_any s ws)

not-Mentions : (s : Text) (ws : List Text) → (contains_any s ws ≡ false) ↔ (¬ Mentions s ws)
not-Mentions s ws = elim (Bool-cases (contains_any s ws)) [
  | inl found ↦ ((λ h. absurd (ground arith)), λ n. absurd (n ((contains_any_iff s ws).0 found)))
  | inr absent ↦ ((λ h m. absurd (ground (arith, (contains_any_iff s ws).1 m))), λ n. absent)
]

-- The words of a provider that is slow, or busy and not refusing.
abbrev pub MayPass : Failure → Text → Type 0
MayPass e value =
    (e.is_deadline ≡ true)
    ⊎ Mentions value timeout_words
    ⊎ ((¬ Mentions value refusal_words) × Mentions value busy_words)

classify-true :
    (e : Failure) (value : Text)
    → (classify e value).1 ≡ true
    → (e.is_canceled ≡ false)
      × (contains_any value environment_words ≡ false)
      × ((e.is_deadline ≡ true)
          ⊎ (contains_any value timeout_words ≡ true)
          ⊎ ((contains_any value refusal_words ≡ false) × (contains_any value busy_words ≡ true)))
unfolding classify
classify-true e value h = ground arith

true-classify :
    (e : Failure) (value : Text)
    → e.is_canceled ≡ false
    → contains_any value environment_words ≡ false
    → (e.is_deadline ≡ true)
      ⊎ (contains_any value timeout_words ≡ true)
      ⊎ ((contains_any value refusal_words ≡ false) × (contains_any value busy_words ≡ true))
    → (classify e value).1 ≡ true
unfolding classify
true-classify e value c n m = ground arith

-- classifyRetry flags a failure as one to retry, which the policy and the number of attempts may still
-- forbid, exactly when it was not cancelled, none of its words says that a program
-- is missing, and it either met a deadline or holds a word of a slow provider, or one of a busy
-- provider and none of a refusal. The words are looked up in the lower-cased text.
pub classify_retry-transient :
    (e : Failure)
    → ((classify_retry (some e)).1 ≡ true) ↔ (
        (e.is_canceled ≡ false)
        × (¬ Mentions (to_lower e.message) environment_words)
        × MayPass e (to_lower e.message))
unfolding classify_retry
classify_retry-transient e = (there, back)
  where
    value : Text
    value = to_lower e.message

    there :
        (classify e value).1 ≡ true
        → (e.is_canceled ≡ false) × (¬ Mentions value environment_words) × MayPass e value
    there h =
        let (c, n, m) = classify-true e value h in
        (
          c,
          (not-Mentions value environment_words).0 n,
          elim m [
            | inl d ↦ inl d
            | inr (inl t) ↦ inr (inl ((contains_any_iff value timeout_words).0 t))
            | inr (inr (r, b)) ↦ inr (
                inr
                  ((not-Mentions value refusal_words).0 r, (contains_any_iff value busy_words).0 b))
          ],
        )

    back :
        (e.is_canceled ≡ false) × (¬ Mentions value environment_words) × MayPass e value
        → (classify e value).1 ≡ true
    back (c, n, m) = true-classify e value c ((not-Mentions value environment_words).1 n) (elim m [
      | inl d ↦ inl d
      | inr (inl t) ↦ inr (inl ((contains_any_iff value timeout_words).1 t))
      | inr (inr (r, b)) ↦
          inr
            (inr ((not-Mentions value refusal_words).1 r, (contains_any_iff value busy_words).1 b))
    ])

-- The class provider_transient and the retry always go together.
pub classify_retry_class :
    (e : Option Failure)
    → ((classify_retry e).1 ≡ true) ↔ ((classify_retry e).0 ≡ provider_transient)
unfolding classify_retry
classify_retry_class none = ground arith
classify_retry_class (some e) = (fwd e, bwd e)
  where
    fwd :
        (x : Failure)
        → (classify x (to_lower x.message)).1 ≡ true
        → (classify x (to_lower x.message)).0 ≡ provider_transient
    fwd x h = ground arith

    bwd :
        (x : Failure)
        → (classify x (to_lower x.message)).0 ≡ provider_transient
        → (classify x (to_lower x.message)).1 ≡ true
    bwd x h = ground arith
