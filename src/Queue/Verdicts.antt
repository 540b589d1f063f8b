-- ===== src/Queue/Verdicts.antt =====
-- What the loop of Next in queue/queue.go finds out about one candidate.
use trilha_runner.Prelude.{
  ℕ, sym, ◌∙◌, ◌≡◌, ◌≢◌, inl, inr, refl, Bool, true, false, ◌++◌, List, [], ◌∷◌, arith, Text,
  is_empty, has_prefix, contains_byte, All, Bool-cases,
}
use trilha_runner.Tasks.{Status, Task, Protocol, status_eq}
use trilha_runner.Queue.{waiting_prefix, blocker}
use trilha_runner.Queue.Blocking.{
  IsMet, unmet_local, unmet_remote, Blocks, free, stopped, blocker-Blocks, eq_of_status_eq,
}

module _ {Doc : Type 0} (p : Protocol Doc) (repositories : List (Text × Text)) where
  -- A ready task with every dependency met.
  pub record IsExecutable (tasks : List (Task Doc)) (t : Task Doc) : Type 0 where
    pub is_ready : t.status ≡ Status.ready
    pub all_met : All (IsMet p repositories tasks) t.depends_on

  -- The protocol's dependencies are not empty texts.
  abbrev pub HasNames : Task Doc → Type 0
  HasNames t = All (λ d. d ≢ []) t.depends_on

  -- The first dependency of a task that is not met, and the dependencies before it.
  pub record FirstUnmet (tasks : List (Task Doc)) (t : Task Doc) (remote : Bool) (d : Text)
      : Type 0 where
    pub before : List Text
    pub after : List Text
    pub split : t.depends_on ≡ before ++ (d ∷ after)
    pub before_met : All (IsMet p repositories tasks) before
    pub unmet : ¬ IsMet p repositories tasks d
    pub kind : contains_byte d b':' ≡ remote

  -- A ready task that waits first of all for a task of another checkout.
  abbrev pub WaitsRemote : List (Task Doc) → Task Doc → Text → Type 0
  WaitsRemote tasks t d = (t.status ≡ Status.ready) × FirstUnmet tasks t true d

  pub data Verdict (tasks : List (Task Doc)) (t : Task Doc) (why : Text) : Type 0 where
    not_ready : status_eq t.status Status.ready ≡ false → Verdict tasks t why
    runs : IsExecutable tasks t → why ≡ [] → Verdict tasks t why
    waits_local :
        (d : Text)
        → t.status ≡ Status.ready
        → FirstUnmet tasks t false d
        → why ≡ d
        → Verdict tasks t why
    waits_remote :
        (d : Text)
        → t.status ≡ Status.ready
        → FirstUnmet tasks t true d
        → why ≡ waiting_prefix ++ d
        → Verdict tasks t why

  Verdict-of_Blocks :
      (tasks : List (Task Doc)) (t : Task Doc) (ds : List Text) (why : Text)
      → t.status ≡ Status.ready
      → t.depends_on ≡ ds
      → Blocks p repositories tasks ds why
      → Verdict tasks t why
  Verdict-of_Blocks tasks t ds why r e (free _ h) =
      runs (record { is_ready = r; all_met = rw e h }) refl
  Verdict-of_Blocks tasks t ds why r e (stopped before d after _ h n (unmet_local k _)) =
      waits_local d r
        (record { before = before; after = after; split = e; before_met = h; unmet = n; kind = k })
        refl
  Verdict-of_Blocks tasks t ds why r e (stopped before d after _ h n (unmet_remote k _)) =
      waits_remote d r
        (record { before = before; after = after; split = e; before_met = h; unmet = n; kind = k })
        refl

  pub verdict :
      (tasks : List (Task Doc)) (t : Task Doc)
      → Verdict tasks t (blocker p repositories tasks t.depends_on)
  verdict tasks t = elim (Bool-cases (status_eq t.status Status.ready)) [
    | inl r ↦
        Verdict-of_Blocks tasks t t.depends_on _ (eq_of_status_eq t.status Status.ready r) refl
          (blocker-Blocks p repositories tasks t.depends_on)
    | inr n ↦ not_ready n
  ]

  All-middle {ℓ} :
      {A : Type ℓ} (P : A → Type 0) (xs : List A) (y : A) (ys : List A)
      → All P (xs ++ (y ∷ ys))
      → P y
  All-middle P [] y ys h = h.0
  All-middle P (x ∷ xs) y ys h = All-middle P xs y ys h.1

  pub not-IsExecutable :
      (tasks : List (Task Doc)) (t : Task Doc) (remote : Bool) (d : Text)
      → FirstUnmet tasks t remote d
      → ¬ IsExecutable tasks t
  not-IsExecutable tasks t remote d u x =
      u.unmet (All-middle (IsMet p repositories tasks) u.before d u.after (rw u.split at x.all_met))

  pub idle_not-IsExecutable :
      (tasks : List (Task Doc)) (t : Task Doc)
      → status_eq t.status Status.ready ≡ false
      → ¬ IsExecutable tasks t
  idle_not-IsExecutable tasks t n x = ground (arith, x.is_ready)

  first_unmet_unique :
      (tasks : List (Task Doc)) (xs ys : List Text) (d e : Text) (us vs : List Text)
      → xs ++ (d ∷ us) ≡ ys ++ (e ∷ vs)
      → All (IsMet p repositories tasks) xs
      → All (IsMet p repositories tasks) ys
      → ¬ IsMet p repositories tasks d
      → ¬ IsMet p repositories tasks e
      → d ≡ e
  first_unmet_unique tasks [] [] d e us vs q hx hy nd ne = cc
  first_unmet_unique tasks [] (y ∷ ys) d e us vs q hx hy nd ne =
      let same : d ≡ y = cc in absurd (nd (rw same hy.0))
  first_unmet_unique tasks (x ∷ xs) [] d e us vs q hx hy nd ne =
      let same : x ≡ e = cc in absurd (ne (rw same at hx.0))
  first_unmet_unique tasks (x ∷ xs) (y ∷ ys) d e us vs q hx hy nd ne =
      first_unmet_unique tasks xs ys d e us vs (cc) hx.1 hy.1 nd ne

  pub local_not_remote :
      (tasks : List (Task Doc)) (t : Task Doc) (d : Text)
      → FirstUnmet tasks t false d
      → (e : Text) → ¬ WaitsRemote tasks t e
  local_not_remote tasks t d u e (_, v) =
      let same : d ≡ e =
        first_unmet_unique tasks u.before v.before d e u.after v.after (sym u.split ∙ v.split)
          u.before_met v.before_met u.unmet v.unmet in
      absurd (ground (arith, u.kind, v.kind))

  pub idle_not_remote :
      (tasks : List (Task Doc)) (t : Task Doc)
      → status_eq t.status Status.ready ≡ false
      → (e : Text) → ¬ WaitsRemote tasks t e
  idle_not_remote tasks t n e (r, _) = ground arith

  pub named_unmet :
      (tasks : List (Task Doc)) (t : Task Doc) (remote : Bool) (d : Text)
      → HasNames t
      → FirstUnmet tasks t remote d
      → is_empty d ≡ false
  named_unmet tasks t remote d h u =
      go d (All-middle (λ e. e ≢ []) u.before d u.after (rw u.split at h))
    where
      go : (e : Text) → e ≢ [] → is_empty e ≡ false
      go [] n = absurd (n refl)
      go (c ∷ e) n = refl

has_prefix-contains :
    (s q : Text) (b : ℕ)
    → has_prefix s q ≡ true
    → contains_byte q b ≡ true
    → contains_byte s b ≡ true
unfolding has_prefix contains_byte
has_prefix-contains s [] b h k = cc
has_prefix-contains [] (d ∷ q) b h k = cc
has_prefix-contains (c ∷ s) (d ∷ q) b h k = ground (arith, has_prefix-contains s q b)

-- The reason of a local dependency has no ':', so it is never taken for a remote one.
pub local_no_prefix :
    (d : Text) → contains_byte d b':' ≡ false → has_prefix d waiting_prefix ≡ false
unfolding contains_byte
local_no_prefix d l = elim (Bool-cases (has_prefix d waiting_prefix)) [
  | inl h ↦ absurd (ground (arith, has_prefix-contains d waiting_prefix b':' h refl))
  | inr n ↦ n
]
