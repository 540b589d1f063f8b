-- ===== src/Prelude/Actions.antt =====
-- Actions on a state that may fail with the text of an error.
use mathlib.Core.Path.{◌≡◌, refl}
use mathlib.Core.Option.{Option, none, some}
use mathlib.Core.List.{◌++◌}
use trilha_runner.Prelude.Texts.{Text}

-- Two actions in a row; an error of the first, under a prefix, leaves out the second.
abbrev pub after {ℓ} :
    {S : Type ℓ} → Text → S × Option Text → (S → S × Option Text) → S × Option Text
after prefix (s, none) next = next s
after prefix (s, some e) next = (s, some (prefix ++ e))

-- What holds at the end of the first action, and is kept by the second, holds at the end of both.
pub after_ind {ℓ κ} :
    {S : Type ℓ} (P : S → Type κ) (prefix : Text) (x : S × Option Text) (f : S → S × Option Text)
    → P x.0
    → ((t : S) → P t → P (f t).0)
    → P (after prefix x f).0
after_ind P prefix (s, none) f h k = k s h
after_ind P prefix (s, some e) f h k = h

pub after_ext {ℓ} :
    {S : Type ℓ} {f g : S → S × Option Text} (prefix : Text) (x : S × Option Text)
    → ((t : S) → f t ≡ g t)
    → after prefix x f ≡ after prefix x g
after_ext prefix (s, none) h = h s
after_ext prefix (s, some e) h = refl
