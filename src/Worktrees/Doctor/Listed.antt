-- ===== src/Worktrees/Doctor/Listed.antt =====
-- The entries of a report of Doctor in worktree/doctor.go, by their keys.
use trilha_runner.Prelude.{
  ◌≡◌, refl, sym, ap, ◌∙◌, List, [], ◌∷◌, ◌++◌, map, Text, text_lt, if_ind, arith, append_assoc,
  append_nil, subst,
}
use mathlib.Core.List.Perm
use mathlib.Core.List.{Perm}
use trilha_runner.Worktrees.{Host, Command}
use trilha_runner.Worktrees.Doctor.{Entry, Options, Scan, inspect, wanted, prune, treat}
use trilha_runner.Worktrees.Doctor.Totals.{
  Report, treat_all, doctor, note_entry, empty_report, insert_entry, sort_by_key,
}

abbrev pub keys_of : List Entry → List Text
keys_of es = map (λ (e : Entry). e.key) es

insert_entry-perm :
    (e : Entry) (xs : List Entry) → Perm (keys_of (insert_entry e xs)) (e.key ∷ keys_of xs)
insert_entry-perm e [] = Perm.refl (e.key ∷ [])
insert_entry-perm e (x ∷ xs) =
    if_ind (λ (l : List Entry). Perm (keys_of l) (e.key ∷ x.key ∷ keys_of xs)) (text_lt x.key e.key)
      (λ _.
        Perm.trans (Perm.cons x.key (insert_entry-perm e xs)) (Perm.swap e.key x.key (keys_of xs)))
      (λ _. Perm.refl (e.key ∷ x.key ∷ keys_of xs))

pub sort_by_key-perm : (xs : List Entry) → Perm (keys_of (sort_by_key xs)) (keys_of xs)
sort_by_key-perm [] = Perm.refl []
sort_by_key-perm (x ∷ xs) =
    Perm.trans (insert_entry-perm x (sort_by_key xs)) (Perm.cons x.key (sort_by_key-perm xs))

keys_of-append :
    (xs : List Entry) (e : Entry) → keys_of (xs ++ (e ∷ [])) ≡ keys_of xs ++ (e.key ∷ [])
keys_of-append [] e = refl
keys_of-append (x ∷ xs) e = ap (λ l. x.key ∷ l) (keys_of-append xs e)

module _ (h : Host) (m : Scan) (o : Options) where
  prune-key : (e : Entry) → (prune h o e).0.key ≡ e.key
  unfolding prune
  prune-key e = ground arith

  treat-key : (key : Text) → (treat h m o key).0.key ≡ key
  unfolding inspect
  treat-key key =
      if_ind (λ (x : Entry × List Command). x.0.key ≡ key) (wanted o (inspect h m key))
        (λ _. prune-key (inspect h m key)) (λ _. refl)

  treat_all-keys :
      (keys : List Text) (r : Report) (commands : List Command)
      → keys_of (treat_all h m o keys (r, commands)).0.entries ≡ keys_of r.entries ++ keys
  unfolding treat_all
  treat_all-keys [] r commands = sym (append_nil (keys_of r.entries))
  treat_all-keys (key ∷ keys) r commands =
      let (e, more) = treat h m o key in
      treat_all-keys keys (note_entry r e) (commands ++ more)
      ∙ ap (λ l. l ++ keys)
          (keys_of-append r.entries e ∙ ap (λ k. keys_of r.entries ++ (k ∷ [])) (treat-key key))
      ∙ append_assoc (keys_of r.entries) (key ∷ []) keys

  pub doctor-perm : (keys : List Text) → Perm (keys_of (doctor h m o keys).0.entries) keys
  unfolding doctor
  doctor-perm keys =
      let (r, commands) = treat_all h m o keys (empty_report, []) in
      subst (λ l. Perm (keys_of (sort_by_key r.entries)) l) (treat_all-keys keys empty_report [])
        (sort_by_key-perm r.entries)
