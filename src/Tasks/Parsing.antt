-- ===== src/Tasks/Parsing.antt =====
-- Parse of internal/taskcompat/taskcompat.go: what becomes of depends_on.
use trilha_runner.Prelude.{◌≡◌, refl, false, List, [], ◌∷◌, some, arith, Text, contains_byte, All}
use trilha_runner.Tasks.{Task, Protocol, depends_on_key, has_remote, local_dependencies}

-- What the program relies on in trilha-spec: a task's dependencies are the list of the front
-- matter, and a document reads back what was set and written.
pub record IsLawful {Doc : Type 0} (p : Protocol Doc) : Type 0 where
  pub task_depends :
      (content : Text) (t : Task Doc) (doc : Doc)
      → p.parse_task content ≡ some t
      → p.parse_doc content ≡ some doc
      → t.depends_on ≡ p.get_list doc depends_on_key
  pub bytes_parse : (doc : Doc) → p.parse_doc (p.doc_bytes doc) ≡ some doc
  pub get_set :
      (doc : Doc) (ds : List Text)
      → p.get_list (p.set_list doc depends_on_key ds) depends_on_key ≡ ds

pub local_dependencies-All :
    (ds : List Text) → All (λ d. contains_byte d b':' ≡ false) (local_dependencies ds)
unfolding local_dependencies
local_dependencies-All [] = tt
local_dependencies-All (d ∷ ds) = ground (arith, local_dependencies-All ds)

pub has_remote-local_dependencies : (ds : List Text) → has_remote (local_dependencies ds) ≡ false
unfolding local_dependencies has_remote
has_remote-local_dependencies [] = refl
has_remote-local_dependencies (d ∷ ds) = ground (arith, has_remote-local_dependencies ds)

pub local_dependencies_id : (ds : List Text) → has_remote ds ≡ false → local_dependencies ds ≡ ds
unfolding local_dependencies has_remote
local_dependencies_id [] h = refl
local_dependencies_id (d ∷ ds) h = ground (arith, local_dependencies_id ds)

module _ {Doc : Type 0} (p : Protocol Doc) (law : IsLawful p) where
  -- The text that reached task.Parse, and the task that it gave.
  pub record Parsed (content : Text) (item : Task Doc) : Type 0 where
    pub original : Doc
    pub seen : Text
    pub given : Task Doc
    pub is_original : p.parse_doc content ≡ some original
    pub parsed : p.parse_task seen ≡ some given
    pub all_local : has_remote given.depends_on ≡ false
    pub keeps : item.depends_on ≡ p.get_list original depends_on_key
    pub same_id : item.id ≡ given.id
    pub same_status : item.status ≡ given.status
