-- ===== src/Queue/Blocking.antt =====
-- What it means that a dependency is done, and what blocker of queue/queue.go answers.
use trilha_runner.Prelude.{
  ◌≡◌, ◌≢◌, ◌⊎◌, inl, inr, refl, true, false, ◌++◌, List, [], ◌∷◌, Option, none, some, arith, Text,
  is_empty, contains_byte, cut, ◌||◌, cut_found, All, Bool-cases, not,
}
use trilha_runner.Tasks.{Status, Task, Protocol, status_eq}
use trilha_runner.Queue.{
  repository_root, waiting_prefix, find_task, is_done, remote_task, reason, blocker,
}

pub eq_of_status_eq : (s t : Status) → status_eq s t ≡ true → s ≡ t
eq_of_status_eq s t h = ground arith

empty-cases : (s : Text) → (s ≡ []) ⊎ ((is_empty s ≡ false) × (s ≢ []))
empty-cases [] = inl refl
empty-cases (c ∷ s) = inr (refl, λ e. cc)

module _ {Doc : Type 0} (p : Protocol Doc) (repositories : List (Text × Text))
    (tasks : List (Task Doc)) where
  -- A local dependency is a task of this checkout that is done; a remote one, alias:id, is a task
  -- that is done in the checkout that the alias names.
  pub data IsMet (d : Text) : Type 0 where
    local :
        (t : Task Doc)
        → contains_byte d b':' ≡ false
        → find_task tasks d ≡ some t
        → t.status ≡ Status.done
        → IsMet d
    remote :
        (t : Task Doc)
        → contains_byte d b':' ≡ true
        → repository_root repositories (cut d b':').0 ≢ []
        → remote_task p repositories (repository_root repositories (cut d b':').0) (cut d b':').1
          ≡ some t
        → t.status ≡ Status.done
        → IsMet d

  is_done-some :
      (o : Option (Task Doc))
      → is_done o ≡ true
      → (t : Task Doc) × (o ≡ some t) × (t.status ≡ Status.done)
  is_done-some none h = cc
  is_done-some (some t) h = (t, refl, eq_of_status_eq t.status Status.done h)

  -- How `reason` judges one dependency: met, or the text that names it.
  pub data Judged (d : Text) : Option Text → Type 0 where
    met : IsMet d → Judged d none
    unmet_local : contains_byte d b':' ≡ false → ¬ IsMet d → Judged d (some d)
    unmet_remote : contains_byte d b':' ≡ true → ¬ IsMet d → Judged d (some (waiting_prefix ++ d))

  local_not-IsMet :
      (d : Text) → contains_byte d b':' ≡ false → is_done (find_task tasks d) ≡ false → ¬ IsMet d
  local_not-IsMet d l n (local t _ f e) = ground arith
  local_not-IsMet d l n (remote t r _ _ _) = cc

  abbrev root_of : Text → Text
  root_of d = repository_root repositories (cut d b':').0

  abbrev task_of : Text → Option (Task Doc)
  task_of d = remote_task p repositories (root_of d) (cut d b':').1

  remote_not-IsMet :
      (d : Text)
      → contains_byte d b':' ≡ true
      → (is_empty (root_of d) || not (is_done (task_of d))) ≡ true
      → ¬ IsMet d
  remote_not-IsMet d r n (local t l _ _) = cc
  remote_not-IsMet d r n (remote t _ root f e) = elim (empty-cases (root_of d)) [
    | inl none_there ↦ root none_there
    | inr (full, some_there) ↦ absurd (ground arith)
  ]

  remote-IsMet :
      (d : Text)
      → contains_byte d b':' ≡ true
      → (is_empty (root_of d) || not (is_done (task_of d))) ≡ false
      → IsMet d
  remote-IsMet d r y = elim (empty-cases (root_of d)) [
    | inl none_there ↦ absurd (ground arith)
    | inr (full, some_there) ↦
        let (t, f, e) = is_done-some (task_of d) (ground arith) in remote t r some_there f e
  ]

  pub reason-Judged : (d : Text) → Judged d (reason p repositories tasks d)
  unfolding reason
  reason-Judged d = elim (Bool-cases (contains_byte d b':')) [
    | inl r ↦ elim (Bool-cases (is_empty (root_of d) || not (is_done (task_of d)))) [
      | inl n ↦ rw (cut_found d b':', r, n) (unmet_remote r (remote_not-IsMet d r n))
      | inr y ↦ rw (cut_found d b':', r, y) (met (remote-IsMet d r y))
    ]
    | inr l ↦ elim (Bool-cases (is_done (find_task tasks d))) [
      | inl y ↦
          let (t, f, e) = is_done-some (find_task tasks d) y in
          rw (cut_found d b':', l, y) (met (local t l f e))
      | inr n ↦ rw (cut_found d b':', l, n) (unmet_local l (local_not-IsMet d l n))
    ]
  ]

  -- What `blocker` answers for a list of dependencies: nothing when all are met, or else the
  -- reason of the first that is not.
  pub data Blocks : List Text → Text → Type 0 where
    free : (ds : List Text) → All IsMet ds → Blocks ds []
    stopped :
        (before : List Text) (d : Text) (after : List Text) (why : Text)
        → All IsMet before
        → ¬ IsMet d
        → Judged d (some why)
        → Blocks (before ++ (d ∷ after)) why

  Blocks-cons :
      (d : Text) (ds : List Text) (why : Text) → IsMet d → Blocks ds why → Blocks (d ∷ ds) why
  Blocks-cons d ds why m (free _ h) = free (d ∷ ds) (m, h)
  Blocks-cons d ds why m (stopped before e after _ h n j) =
      stopped (d ∷ before) e after why (m, h) n j

  first-Blocks :
      (d : Text) (ds : List Text) (why : Text) → Judged d (some why) → Blocks (d ∷ ds) why
  first-Blocks d ds why j = stopped [] d ds why tt (refusal why j) j
    where
      refusal : (w : Text) → Judged d (some w) → ¬ IsMet d
      refusal _ (unmet_local _ n) = n
      refusal _ (unmet_remote _ n) = n

  IsMet-of_Judged : (d : Text) → Judged d none → IsMet d
  IsMet-of_Judged d (met m) = m

  -- blocker answers the empty text when every dependency is met, and otherwise the reason of the first
  -- that is not: the dependency itself when it is local, and "waiting:" with it when it is remote. The
  -- reason of an empty dependency that is not met is the empty text too.
  pub blocker-Blocks : (ds : List Text) → Blocks ds (blocker p repositories tasks ds)
  unfolding blocker
  blocker-Blocks [] = free [] tt
  blocker-Blocks (d ∷ ds) = go (reason p repositories tasks d) (reason-Judged d) (blocker-Blocks ds)
    where
      go :
          (r : Option Text)
          → Judged d r
          → Blocks ds (blocker p repositories tasks ds)
          → Blocks (d ∷ ds) (elim r [ none ↦ blocker p repositories tasks ds | some w ↦ w ])
      go none j rest = Blocks-cons d ds (blocker p repositories tasks ds) (IsMet-of_Judged d j) rest
      go (some w) j rest = first-Blocks d ds w j
