-- ===== src/Supervisor/Transactions.antt =====
-- `_catalog_transaction_request`: what an installer asks when it switches a package.
pub mod Requests
pub mod Replay
mod Samples
use msys_core.Common.{
  ℕ, Bool, true, false, not, ◌&&◌, Option, none, some, List, [], ◌∷◌, elem, distinct, length, leb,
  nat_eq, if◌then◌else◌, ◌==◌,
}
use msys_core.Common.Result.{Result, ok, err, require, ◌>>=◌, ◌>>◌}
use msys_core.Common.Sorting.{sorted}
use msys_core.Common.Text.{Text, codes, text_eq, text_leb}
use msys_core.Value.{
  Value, Items, Fields, null, bool, str, list, dict, nil, cons, items, field, end, get_field,
  get_or,
}

pub data TransactionError : Type 0 where
  not_an_object : TransactionError
  unsupported_schema : TransactionError
  invalid_package : TransactionError
  invalid_removed : TransactionError
  invalid_version : TransactionError
  invalid_path : TransactionError
  unbounded_resume : TransactionError
  invalid_resume : TransactionError

-- `resume_components` is empty where the dict of the source has no such key; `target` are the version
-- and the path of a package that is not removed.
pub record TransactionRequest : Type 0 where
  pub package_id : Text
  pub removed : Bool
  pub target : Option (Text × Text)
  pub resume_components : List Text

abbrev pub transaction_schema : Text
transaction_schema = codes "msys.catalog-transaction.v1"

-- `not isinstance(v, str) or not v or len(v) > limit or "\0" in v`, negated
pub is_bounded : ℕ → Text → Bool
is_bounded limit [] = false
is_bounded limit (c ∷ t) = leb (length (c ∷ t)) limit && not (elem 0 (c ∷ t))

pub bounded_text : ℕ → TransactionError → Value → Result TransactionError Text
unfolding is_bounded
bounded_text limit error (str t) = if is_bounded limit t then ok t else err error
bounded_text limit error _ = err error

pub as_bool : Value → Result TransactionError Bool
as_bool (bool b) = ok b
as_bool _ = err invalid_removed

-- `value.get(name)`
abbrev pub get_value : Text → Fields → Value
get_value name fields = get_or name null fields

pub request_target : (Text → Bool) → Bool → Fields → Result TransactionError (Option (Text × Text))
unfolding bounded_text
request_target is_absolute true fields = ok none
request_target is_absolute false fields = do
  version ← bounded_text 128 invalid_version (get_value (codes "version") fields)
  path ← bounded_text 4096 invalid_path (get_value (codes "path") fields)
  require (is_absolute path) invalid_path
  ok (some (version, path))

pub resume_texts : List Value → Result TransactionError (List Text)
unfolding bounded_text
resume_texts [] = ok []
resume_texts (v ∷ vs) = do t ← bounded_text 257 invalid_resume v; ts ← resume_texts vs; ok (t ∷ ts)

pub resume_components : Value → Result TransactionError (List Text)
unfolding resume_texts
resume_components (list vs) = do
  require (leb (length (items vs)) 256) unbounded_resume
  texts ← resume_texts (items vs)
  ok (sorted text_leb (distinct texts))
resume_components _ = err unbounded_resume

pub is_schema : Value → Bool
is_schema (str t) = t == transaction_schema
is_schema _ = false

-- The checks of a dict, in their order. `is_absolute` is `Path(path).is_absolute()`.
pub checked_request : (Text → Bool) → Fields → Result TransactionError TransactionRequest
unfolding is_schema bounded_text as_bool request_target resume_components
checked_request is_absolute fields = do
  require (is_schema (get_value (codes "schema") fields)) unsupported_schema
  package_id ← bounded_text 128 invalid_package (get_value (codes "package") fields)
  removed ← as_bool (get_value (codes "removed") fields)
  target ← request_target is_absolute removed fields
  resume ← resume_components (get_or (codes "resume_components") (list nil) fields)
  ok (record {
    package_id = package_id;
    removed = removed;
    target = target;
    resume_components = resume;
  })

pub catalog_transaction_request :
    (Text → Bool) → Value → Result TransactionError (Option TransactionRequest)
unfolding checked_request
catalog_transaction_request is_absolute null = ok none
catalog_transaction_request is_absolute (dict fields) = do
  request ← checked_request is_absolute fields
  ok (some request)
catalog_transaction_request is_absolute _ = err not_an_object
