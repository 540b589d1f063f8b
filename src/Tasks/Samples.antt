-- ===== src/Tasks/Samples.antt =====
-- A protocol to evaluate the model with: a document is the text of its dependencies, each byte
-- one up, each dependency ended by 0.
use trilha_runner.Prelude.{
  arith, ℕ, zero, suc, ◌≡◌, refl, ap, ◌∙◌, ◌++◌, List, [], ◌∷◌, map, some, Text, codes,
}
use trilha_runner.Tasks.{Status, Task, Protocol}
use trilha_runner.Tasks.Parsing.{IsLawful}

unfoldable pub encode : List Text → Text
encode [] = []
encode (d ∷ ds) = map suc d ++ (0 ∷ encode ds)

push : ℕ → List Text → List Text
push c [] = (c ∷ []) ∷ []
push c (d ∷ ds) = (c ∷ d) ∷ ds

decode : Text → List Text
unfolding push
decode [] = []
decode (zero ∷ s) = [] ∷ decode s
decode (suc c ∷ s) = push c (decode s)

decode-append : (d rest : Text) → decode (map suc d ++ (0 ∷ rest)) ≡ d ∷ decode rest
unfolding decode
decode-append [] rest = refl
decode-append (c ∷ d) rest = ap (push c) (decode-append d rest)

decode-encode : (ds : List Text) → decode (encode ds) ≡ ds
unfolding encode
decode-encode [] = unfold decode in refl
decode-encode (d ∷ ds) = decode-append d (encode ds) ∙ ap (λ l. d ∷ l) (decode-encode ds)

abbrev pub sample_task : Text → Status → List Text → Task Text
sample_task id status ds = record {
  id = id;
  status = status;
  depends_on = ds;
  updated = 0;
  agent = [];
  checks = [];
  fields = [];
}

-- Every checkout holds TASK-007, which is done.
unfoldable pub sample : Protocol Text
unfolding encode decode
sample = record {
  parse_doc = λ content. some content;
  get_list = λ doc key. decode doc;
  set_list = λ doc key ds. encode ds;
  doc_bytes = λ doc. doc;
  parse_task = λ content. some (sample_task (codes "TASK-001") Status.ready (decode content));
  task_bytes = λ t. encode t.depends_on;
  task_move = λ t to. some (record t { status = to });
  store_move = λ files id to. some files;
  open_store = λ root. some [];
  store_get = λ files id. some (sample_task id Status.done []);
}

pub sample-IsLawful : IsLawful sample
unfolding sample
sample-IsLawful = record {
  task_depends = λ content t doc made read. ground arith;
  bytes_parse = λ doc. refl;
  get_set = λ doc ds. decode-encode ds;
}
