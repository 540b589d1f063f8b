-- ===== src/Queue/Next.antt =====
-- Next of queue/queue.go: the first executable task, or why there is none.
use trilha_runner.Prelude.{
  ◌≡◌, refl, ap, true, false, ◌++◌, List, [], ◌∷◌, Option, none, some, Text, is_empty,
  has_prefix-append, All,
}
use trilha_runner.Tasks.{Status, Task, Protocol, status_eq, ok}
use trilha_runner.Queue.{
  NextResult, item, blocked, empty, waiting_prefix, blocker, note_blocked, next_from, next,
}
use trilha_runner.Queue.Verdicts.{
  IsExecutable, HasNames, not_ready, runs, waits_local, waits_remote, verdict, not-IsExecutable,
  idle_not-IsExecutable, WaitsRemote, local_no_prefix, local_not_remote, idle_not_remote,
  named_unmet,
}

module _ {Doc : Type 0} (p : Protocol Doc) (repositories : List (Text × Text)) where
  -- The candidate that the loop stops at: the first that is executable.
  pub record IsFirst (tasks cs : List (Task Doc)) (id : Text) : Type 0 where
    pub before : List (Task Doc)
    pub chosen : Task Doc
    pub after : List (Task Doc)
    pub split : cs ≡ before ++ (chosen ∷ after)
    pub named : id ≡ chosen.id
    pub executable : IsExecutable p repositories tasks chosen
    pub none_before : All (λ t. ¬ IsExecutable p repositories tasks t) before

  IsFirst-cons :
      (tasks cs : List (Task Doc)) (id : Text) (c : Task Doc)
      → ¬ IsExecutable p repositories tasks c
      → IsFirst tasks cs id
      → IsFirst tasks (c ∷ cs) id
  IsFirst-cons tasks cs id c n f = record {
    before = c ∷ f.before;
    chosen = f.chosen;
    after = f.after;
    split = ap (λ l. c ∷ l) f.split;
    named = f.named;
    executable = f.executable;
    none_before = (n, f.none_before);
  }

  IsFirst-here :
      (tasks cs : List (Task Doc)) (c : Task Doc)
      → IsExecutable p repositories tasks c
      → IsFirst tasks (c ∷ cs) c.id
  IsFirst-here tasks cs c x = record {
    before = [];
    chosen = c;
    after = cs;
    split = refl;
    named = refl;
    executable = x;
    none_before = tt;
  }

  -- The task that a BlockedError names: the first of its kind.
  pub record IsFirstWaiting (tasks cs : List (Task Doc)) (id why : Text) : Type 0 where
    pub before : List (Task Doc)
    pub task : Task Doc
    pub after : List (Task Doc)
    pub dependency : Text
    pub split : cs ≡ before ++ (task ∷ after)
    pub named : id ≡ task.id
    pub reason : why ≡ waiting_prefix ++ dependency
    pub waits : WaitsRemote p repositories tasks task dependency
    pub none_before : All (λ t. (d : Text) → ¬ WaitsRemote p repositories tasks t d) before

  pub data Outcome (tasks cs : List (Task Doc)) : NextResult → Type 0 where
    found : (id : Text) → IsFirst tasks cs id → Outcome tasks cs (item id)
    waits :
        (id why : Text)
        → All (λ t. ¬ IsExecutable p repositories tasks t) cs
        → IsFirstWaiting tasks cs id why
        → Outcome tasks cs (blocked id why)
    idle :
        All (λ t. ¬ IsExecutable p repositories tasks t) cs
        → All (λ t. (d : Text) → ¬ WaitsRemote p repositories tasks t d) cs
        → Outcome tasks cs empty

  -- The loop with firstBlocked set: it is what Next answers, unless a task is executable.
  data Kept (tasks cs : List (Task Doc)) (id why : Text) : NextResult → Type 0 where
    later : (id' : Text) → IsFirst tasks cs id' → Kept tasks cs id why (item id')
    kept :
        All (λ t. ¬ IsExecutable p repositories tasks t) cs → Kept tasks cs id why (blocked id why)

  Kept-cons :
      (tasks cs : List (Task Doc)) (id why : Text) (c : Task Doc) (r : NextResult)
      → ¬ IsExecutable p repositories tasks c
      → Kept tasks cs id why r
      → Kept tasks (c ∷ cs) id why r
  Kept-cons tasks cs id why c r n (later id' f) = later id' (IsFirst-cons tasks cs id' c n f)
  Kept-cons tasks cs id why c r n (kept h) = kept (n, h)

  module _ (tasks : List (Task Doc)) where
    step_skip :
        (first : Option (Text × Text)) (c : Task Doc) (cs : List (Task Doc))
        → status_eq c.status Status.ready ≡ false
        → next_from p repositories tasks first (c ∷ cs) ≡ next_from p repositories tasks first cs
    unfolding next_from
    step_skip first c cs n = rw n

    step_run :
        (first : Option (Text × Text)) (c : Task Doc) (cs : List (Task Doc))
        → c.status ≡ Status.ready
        → blocker p repositories tasks c.depends_on ≡ []
        → next_from p repositories tasks first (c ∷ cs) ≡ item c.id
    unfolding next_from
    step_run first c cs r e = rw (r, e)

    step_wait :
        (first : Option (Text × Text)) (c : Task Doc) (cs : List (Task Doc)) (why : Text)
        → c.status ≡ Status.ready
        → blocker p repositories tasks c.depends_on ≡ why
        → is_empty why ≡ false
        → next_from p repositories tasks first (c ∷ cs)
          ≡ next_from p repositories tasks (note_blocked p repositories first c.id why) cs
    unfolding next_from
    step_wait first c cs why r e n = rw (r, e, n)

    next_from-Kept :
        (id why : Text) (cs : List (Task Doc))
        → All (HasNames p repositories) cs
        → Kept tasks cs id why (next_from p repositories tasks (some (id, why)) cs)
    next_from-Kept id why [] h = unfold next_from in kept tt
    next_from-Kept id why (c ∷ cs) h =
        let ih = next_from-Kept id why cs h.1 in
        elim (verdict p repositories tasks c) [
          | not_ready n ↦
              rw (step_skip (some (id, why)) c cs n)
                (Kept-cons tasks cs id why c _ (idle_not-IsExecutable p repositories tasks c n) ih)
          | runs x e ↦
              rw (step_run (some (id, why)) c cs x.is_ready e)
                (later c.id (IsFirst-here tasks cs c x))
          | waits_local d r u e ↦
              rw
                (step_wait (some (id, why)) c cs _ r e
                  (named_unmet p repositories tasks c false d h.0 u))
                (Kept-cons tasks cs id why c _ (not-IsExecutable p repositories tasks c false d u)
                  ih)
          | waits_remote d r u e ↦
              rw (step_wait (some (id, why)) c cs _ r e refl) (
                Kept-cons tasks cs id why c _ (not-IsExecutable p repositories tasks c true d u) ih)
        ]

    Outcome-cons_idle :
        (c : Task Doc) (cs : List (Task Doc)) (r : NextResult)
        → ¬ IsExecutable p repositories tasks c
        → ((d : Text) → ¬ WaitsRemote p repositories tasks c d)
        → Outcome tasks cs r
        → Outcome tasks (c ∷ cs) r
    Outcome-cons_idle c cs r n w (found id f) = found id (IsFirst-cons tasks cs id c n f)
    Outcome-cons_idle c cs r n w (waits id why h f) =
        waits id why (n, h)
          (record {
            before = c ∷ f.before;
            task = f.task;
            after = f.after;
            dependency = f.dependency;
            split = ap (λ l. c ∷ l) f.split;
            named = f.named;
            reason = f.reason;
            waits = f.waits;
            none_before = (w, f.none_before);
          })
    Outcome-cons_idle c cs r n w (idle h k) = idle (n, h) (w, k)

    Outcome-of_Kept :
        (c : Task Doc) (cs : List (Task Doc)) (d : Text) (r : NextResult)
        → WaitsRemote p repositories tasks c d
        → Kept tasks cs c.id (waiting_prefix ++ d) r
        → Outcome tasks (c ∷ cs) r
    Outcome-of_Kept c cs d r w (later id f) =
        found id (IsFirst-cons tasks cs id c (not-IsExecutable p repositories tasks c true d w.1) f)
    Outcome-of_Kept c cs d r w (kept h) =
        waits c.id (waiting_prefix ++ d) (not-IsExecutable p repositories tasks c true d w.1, h)
          (record {
            before = [];
            task = c;
            after = cs;
            dependency = d;
            split = refl;
            named = refl;
            reason = refl;
            waits = w;
            none_before = tt;
          })

    next_from-Outcome :
        (cs : List (Task Doc))
        → All (HasNames p repositories) cs
        → Outcome tasks cs (next_from p repositories tasks none cs)
    next_from-Outcome [] h = unfold next_from in idle tt tt
    next_from-Outcome (c ∷ cs) h =
        let ih = next_from-Outcome cs h.1 in
        elim (verdict p repositories tasks c) [
          | not_ready n ↦ rw (step_skip none c cs n) (
              Outcome-cons_idle c cs _ (idle_not-IsExecutable p repositories tasks c n)
                (idle_not_remote p repositories tasks c n) ih)
          | runs x e ↦ rw (step_run none c cs x.is_ready e) (found c.id (IsFirst-here tasks cs c x))
          | waits_local d r u e ↦
              rw
                (
                  step_wait none c cs d r e (named_unmet p repositories tasks c false d h.0 u),
                  local_no_prefix d u.kind,
                )
                (Outcome-cons_idle c cs _ (not-IsExecutable p repositories tasks c false d u)
                  (local_not_remote p repositories tasks c d u) ih)
          | waits_remote d r u e ↦
              rw
                (
                  step_wait none c cs (waiting_prefix ++ d) r e refl,
                  has_prefix-append waiting_prefix d,
                )
                (Outcome-of_Kept c cs d _ (r, u) (next_from-Kept c.id (waiting_prefix ++ d) cs h.1))
        ]

  -- When no dependency of a task is the empty text: Next answers the first task, in the listing's
  -- order, that is ready with every dependency met; with none, a BlockedError for the first ready task
  -- whose first unmet dependency is in another checkout; and ErrEmpty when there is neither.
  pub next-Outcome :
      (tasks : List (Task Doc))
      → All (HasNames p repositories) tasks
      → Outcome tasks tasks (next p repositories (ok tasks))
  unfolding next
  next-Outcome tasks h = next_from-Outcome tasks tasks h
