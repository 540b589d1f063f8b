-- ===== src/Sandbox/Manifest.antt =====
-- FromAgent of sandbox/sandbox.go: the sandbox that an agent's manifest asks for.
use trilha_runner.Prelude.{
  quote, Bool, false, ◌||◌, not, List, [], ◌∷◌, ◌++◌, ◌⊎◌, inl, inr, Option, none, some, Text,
  codes, text_eq, is_empty, trim_space, to_lower, if◌then◌else◌,
}
use trilha_runner.Sandbox.{Service, Docker}

-- A field of a map, empty when it is not there.
unfoldable pub field : List (Text × Text) → Text → Text
unfolding text_eq
field [] name = []
field ((key, value) ∷ fields) name =
    let rest = field fields name in if text_eq key name then value else rest

abbrev pub kind_of : Text → Text
kind_of raw = let kind = to_lower (trim_space raw) in if is_empty kind then codes "docker" else kind

unfoldable pub has_unnamed : List Service → Bool
has_unnamed [] = false
has_unnamed (service ∷ services) =
    is_empty (trim_space service.name)
    || is_empty (trim_space service.image)
    || has_unnamed services

-- The services, from their JSON.
abbrev pub services_of : (Text → Text ⊎ List Service) → Text → Text ⊎ List Service
services_of decode raw = if is_empty (trim_space raw) then inr [] else decode (trim_space raw)

unfoldable pub configured : Text → Text ⊎ List Service → Text ⊎ Option Docker
unfolding has_unnamed
configured image (inl e) = inl (codes "sandbox: services: " ++ e)
configured image (inr services) =
    if has_unnamed services
    then inl (codes "sandbox: every service needs name and image")
    else inr
        (some (record { image = image; services = services; binary = []; is_read_only = false }))

-- FromAgent of the map `sandbox` of a manifest, empty when there is none, with the decoder of JSON.
unfoldable pub from_agent : (Text → Text ⊎ List Service) → List (Text × Text) → Text ⊎ Option Docker
unfolding field configured
from_agent decode [] = inr none
from_agent decode (f ∷ fs) =
    let fields = f ∷ fs in
    let kind = kind_of (field fields (codes "type")) in
    let image = trim_space (field fields (codes "image")) in
    if not (text_eq kind (codes "docker"))
    then inl (codes "sandbox: unsupported type " ++ quote kind)
    else if is_empty image
    then inl (codes "sandbox: docker image is required")
    else configured image (services_of decode (field fields (codes "services")))
