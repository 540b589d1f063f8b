-- ===== src/Worker/Sending.antt =====
-- The requests that uploadArtifacts of cmd/trilha-runner/worker.go makes, and what it takes for
-- accepted.
use trilha_runner.Prelude.{
  ◌↔◌, ℕ, zero, suc, ◌+◌, ◌*◌, ◌≤◌, ◌<◌, ◌==◌, Bool, true, false, ◌||◌, not, List, [], ◌∷◌, ◌++◌,
  ◌⊎◌, inl, inr, Option, none, some, Text, length, length-append, if_ind, ◌≡◌, refl, sym, ap, ◌∙◌,
  arith, append_assoc, subst,
}
use trilha_runner.Queue.Remote.{Item, Request}
use trilha_runner.Queue.Remote.Uploading.{Upload, accepted, disabled, refused, broken}
use trilha_runner.Worker.Outbox.{is_retryable}
use trilha_runner.Worker.Uploads.{
  Artifact, Scene, may_retry, request_for, answer_to, attempts_from, upload_one, with_accepted,
  after_upload, after_read, upload_from, list_of, upload_artifacts,
}

stopped_by :
    (attempt : ℕ) (ended retry : Bool) (left : ℕ)
    → (suc left + attempt ≡ 4)
    → (not retry || attempt == 3 || ended ≡ true)
    → (retry ≡ true)
    → (1 ≡ suc left) ⊎ (ended ≡ true)
stopped_by attempt true retry left e stop more = inr refl
stopped_by attempt false retry left e stop more = inl (ground (arith, e, stop, more))

-- An answer that may be another one later: none at all, a status from 500, 408 or 429.
abbrev pub MayDiffer : Upload → Type 0
MayDiffer accepted = ⊥
MayDiffer disabled = ⊥
MayDiffer (refused code body) = (500 ≤ code) ⊎ (code ≡ 408) ⊎ (code ≡ 429)
MayDiffer (broken e) = Unit

may_retry-MayDiffer : (u : Upload) → (may_retry u ≡ true) ↔ MayDiffer u
unfolding may_retry is_retryable
may_retry-MayDiffer accepted = (λ h. ground (arith, h), λ h. absurd h)
may_retry-MayDiffer disabled = (λ h. ground (arith, h), λ h. absurd h)
may_retry-MayDiffer (refused code body) = (λ h. ground (arith, h), λ h. ground (arith, h))
may_retry-MayDiffer (broken e) = (λ _. tt, λ _. refl)

module _ (c : Scene) (item : Item) where
  -- The same request, again and again while the answer may be another one later; the last one is
  -- answered so.
  unfoldable pub Tries : Request → List Request → List Request → Upload → Type 0
  Tries q past [] u = ⊥
  Tries q past (t ∷ []) u = (t ≡ q) × (answer_to c item past q ≡ u)
  Tries q past (t ∷ t2 ∷ ts) u =
      (t ≡ q) × MayDiffer (answer_to c item past q) × Tries q (past ++ (q ∷ [])) (t2 ∷ ts) u

  -- Requests up to a number of them, fewer only for an answer that stays or at the end of the
  -- worker's context.
  abbrev pub Tried : ℕ → Request → List Request → List Request → Upload → Type 0
  Tried most q past tries u =
      Tries q past tries u
      × (length tries ≤ most)
      × (MayDiffer u → (length tries ≡ most) ⊎ (c.is_ended (past ++ tries) ≡ true))

  abbrev Ends : ℕ → Request → List Request → List Request × Option Upload → Type 0
  Ends most q past x =
      (tries : List Request) × (u : Upload) × (x ≡ (past ++ tries, some u))
      × Tried most q past tries u

  Tries-cons :
      (q : Request) (past ts : List Request) (u : Upload)
      → MayDiffer (answer_to c item past q)
      → Tries q (past ++ (q ∷ [])) ts u
      → Tries q past (q ∷ ts) u
  unfolding Tries
  Tries-cons q past [] u again h = absurd h
  Tries-cons q past (t ∷ ts) u again h = (refl, again, h)

  attempts_from-Ends :
      (left attempt : ℕ) (q : Request) (past : List Request)
      → (0 < left)
      → (left + attempt ≡ 4)
      → Ends left q past (attempts_from c item left attempt q past)
  unfolding attempts_from
  attempts_from-Ends zero attempt q past h e = absurd (omega (arith, h))
  attempts_from-Ends (suc left) attempt q past h e =
      let u = answer_to c item past q in
      let sent = past ++ (q ∷ []) in
      if_ind (Ends (suc left) q past) (not (may_retry u) || attempt == 3 || c.is_ended sent)
        (λ stop. (
          q ∷ [],
          u,
          refl,
          (
            unfold Tries in (refl, refl),
            omega arith,
            λ more.
                stopped_by attempt (c.is_ended sent) (may_retry u) left e stop
                  ((may_retry-MayDiffer u).1 more),
          ),
        ))
        (λ again.
          let (tries, v, same, (chain, count, why)) =
            attempts_from-Ends left (attempt + 1) q sent (ground (arith, again, e))
              (omega (arith, e)) in
          let moved = append_assoc past (q ∷ []) tries in
          (
            q ∷ tries,
            v,
            same ∙ ap (λ l. (l, some v)) moved,
            (
              Tries-cons q past tries v ((may_retry-MayDiffer u).0 (ground (arith, again))) chain,
              omega (arith, count),
              λ more. elim (why more) [
                | inl full ↦ inl (omega (arith, full))
                | inr ended ↦ inr (ap (λ l. c.is_ended l) (sym moved) ∙ ended)
              ],
            ),
          ))

  -- The end of an upload, and the end of all of them.
  abbrev pub Told :
      Artifact
      → (List Request × Option (List Artifact) → Type 0)
      → List Request
      → Upload
      → List Request × Option (List Artifact)
      → Type 0
  Told a Rest past accepted x =
      (y : List Request × Option (List Artifact)) × Rest y × (x ≡ with_accepted c item a y)
  Told a Rest past disabled x = x ≡ (past, none)
  Told a Rest past (refused code body) x = Rest x
  Told a Rest past (broken e) x = Rest x

  -- What becomes of each artifact in turn.
  unfoldable pub Sent :
      List Artifact → List Request → List Request × Option (List Artifact) → Type 0
  Sent [] past x = x ≡ (past, some [])
  Sent (a ∷ more) past x =
      ((c.read a.path ≡ none) × Sent more past x)
      ⊎ ((bytes : Text) × (tries : List Request) × (u : Upload) × (c.read a.path ≡ some bytes)
          × Tried 3 (request_for c item a bytes) past tries u
          × Told a (λ y. Sent more (past ++ tries) y) (past ++ tries) u x)

  after_upload-Told :
      (a : Artifact) (rest : List Request → List Request × Option (List Artifact))
      (Rest : List Request × Option (List Artifact) → Type 0) (past : List Request) (u : Upload)
      → Rest (rest past)
      → Told a Rest past u (after_upload c item a rest (past, some u))
  after_upload-Told a rest Rest past accepted h = (rest past, h, refl)
  after_upload-Told a rest Rest past disabled h = refl
  after_upload-Told a rest Rest past (refused code body) h = h
  after_upload-Told a rest Rest past (broken e) h = h

  after_read-Sent :
      (a : Artifact) (more : List Artifact) (past : List Request) (o : Option Text)
      → (c.read a.path ≡ o)
      → ((p : List Request) → Sent more p (upload_from c item more p))
      → Sent (a ∷ more) past (after_read c item a (upload_from c item more) past o)
  unfolding Sent after_read upload_one
  after_read-Sent a more past none e ih = inl (e, ih past)
  after_read-Sent a more past (some bytes) e ih =
      let q = request_for c item a bytes in
      let (tries, u, same, tried) = attempts_from-Ends 3 1 q past (omega arith) (omega arith) in
      let Rest : List Request × Option (List Artifact) → Type 0 =
        λ y. Sent more (past ++ tries) y in
      inr (
        bytes,
        tries,
        u,
        e,
        tried,
        subst
            (λ (x : List Request × Option Upload).
              Told a Rest (past ++ tries) u (after_upload c item a (upload_from c item more) x))
            (sym same)
            (after_upload-Told a (upload_from c item more) Rest (past ++ tries) u
              (ih (past ++ tries))),
      )

  upload_from-Sent :
      (artifacts : List Artifact) (past : List Request)
      → Sent artifacts past (upload_from c item artifacts past)
  unfolding Sent upload_from
  upload_from-Sent [] past = refl
  upload_from-Sent (a ∷ more) past =
      after_read-Sent a more past (c.read a.path) refl (upload_from-Sent more)

  with_accepted-same :
      (a : Artifact) (y : List Request × Option (List Artifact))
      → (with_accepted c item a y).0 ≡ y.0
  with_accepted-same a (past, none) = refl
  with_accepted-same a (past, some rest) = refl

  Told-length :
      (a : Artifact) (Rest : List Request × Option (List Artifact) → Type 0) (past : List Request)
      (u : Upload) (x : List Request × Option (List Artifact)) (n : ℕ)
      → ((y : List Request × Option (List Artifact)) → Rest y → length y.0 ≤ length past + n)
      → Told a Rest past u x
      → length x.0 ≤ length past + n
  Told-length a Rest past accepted x n h (y, rest, e) =
      let same = ap (λ (z : List Request × Option (List Artifact)). length z.0) e in
      let kept = ap (λ (l : List Request). length l) (with_accepted-same a y) in
      omega (arith, h y rest, same, kept)
  Told-length a Rest past disabled x n h e =
      let same = ap (λ (z : List Request × Option (List Artifact)). length z.0) e in
      omega (arith, same)
  Told-length a Rest past (refused code body) x n h rest = h x rest
  Told-length a Rest past (broken e) x n h rest = h x rest

  Sent-length :
      (artifacts : List Artifact) (past : List Request) (x : List Request × Option (List Artifact))
      → Sent artifacts past x
      → length x.0 ≤ length past + 3 * length artifacts
  unfolding Sent
  Sent-length [] past x e =
      let same = ap (λ (z : List Request × Option (List Artifact)). length z.0) e in
      omega (arith, same)
  Sent-length (a ∷ more) past x (inl (unread, rest)) = omega (arith, Sent-length more past x rest)
  Sent-length (a ∷ more) past x (inr (bytes, tries, u, e, (chain, count, why), told)) =
      let bound =
        Told-length a (λ y. Sent more (past ++ tries) y) (past ++ tries) u x (3 * length more)
          (λ y rest. Sent-length more (past ++ tries) y rest) told in
      omega (arith, bound, length-append past tries, count)

-- The artifacts are sent in their order, and those that cannot be read are left out. Each is sent
-- three times at most, again only after no answer, a status from 500, or 408 or 429, and fewer than
-- three only for another answer or at the end of the worker's context. It counts as accepted exactly
-- when its last answer accepts it; when one says that the project takes no artifacts, nothing more is
-- sent and none is accepted. So there are at most three requests for each artifact.
pub upload_artifacts-Sent :
    (c : Scene) (item : Item) (artifacts : List Artifact)
    → Sent c item artifacts [] (upload_from c item artifacts [])
      × (upload_artifacts c item artifacts ≡ list_of c item (upload_from c item artifacts []).1)
      × (length (upload_from c item artifacts []).0 ≤ 3 * length artifacts)
unfolding upload_artifacts
upload_artifacts-Sent c item artifacts =
    let sent = upload_from-Sent c item artifacts [] in
    (
      sent,
      refl,
      omega (arith, Sent-length c item artifacts [] (upload_from c item artifacts []) sent),
    )
