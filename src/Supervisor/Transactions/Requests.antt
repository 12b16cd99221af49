-- ===== src/Supervisor/Transactions/Requests.antt =====
-- Which requests the checks return.
use msys_core.Common.{
  ℕ, suc, ◌≤◌, ◌≡◌, refl, sym, ap, ◌∙◌, subst, Bool, true, false, ◌&&◌, Option, none, some, List,
  [], ◌∷◌, map, all, distinct, remove_all, length, leb, if◌then◌else◌, arith, IsNodup,
  distinct-IsNodup,
}
use msys_core.Common.Result.{ok, err, require, bind-ok, require-ok, ok_injective}
use msys_core.Common.Sorting.{sorted, insert_sorted, IsSorted, sorted-IsSorted, sorted-IsNodup}
use msys_core.Common.Text.{Text, codes, text_eq, text_leb, text_leb_total, text_leb_trans}
use msys_core.Supervisor.Transactions.{
  TransactionError, TransactionRequest, is_bounded, bounded_text, as_bool, request_target,
  resume_texts, resume_components, is_schema, checked_request, catalog_transaction_request,
  get_value, invalid_package, invalid_version, invalid_path, invalid_resume, unsupported_schema,
  unbounded_resume,
}
use msys_core.Value.{Value, Fields, null, str, list, dict, nil, items, get_or}
use mathlib.Core.List.{map-id}

-- The version and the path of a package that is not removed.
abbrev pub IsTarget : (Text → Bool) → Bool → Option (Text × Text) → Type 0
IsTarget is_absolute removed none = removed ≡ true
IsTarget is_absolute removed (some (version, path)) =
    (removed ≡ false)
    × (is_bounded 128 version ≡ true)
    × (is_bounded 4096 path ≡ true)
    × (is_absolute path ≡ true)

pub record IsRequest (is_absolute : Text → Bool) (r : TransactionRequest) : Type 0 where
  pub named : is_bounded 128 r.package_id ≡ true
  pub targeted : IsTarget is_absolute r.removed r.target
  pub few : length r.resume_components ≤ 256
  pub bounded : all (is_bounded 257) r.resume_components ≡ true
  pub in_order : IsSorted text_leb r.resume_components
  pub once : IsNodup r.resume_components

-- A test that lets a text through.
chosen :
    (b : Bool) (error : TransactionError) (s t : Text)
    → (if b then ok s else err error) ≡ ok t
    → (b ≡ true) × (s ≡ t)
chosen true error s t h = (refl, ok_injective h)
chosen false error s t h = cc

bounded_text-ok :
    (limit : ℕ) (error : TransactionError) (v : Value) (t : Text)
    → bounded_text limit error v ≡ ok t
    → is_bounded limit t ≡ true
unfolding bounded_text
bounded_text-ok limit error (str s) t h =
    let (b, e) = chosen (is_bounded limit s) error s t h in
    subst (λ r. is_bounded limit r ≡ true) e b
bounded_text-ok limit error _ t h = cc

pub bounded_text_str :
    (limit : ℕ) (error : TransactionError) (t : Text)
    → is_bounded limit t ≡ true
    → bounded_text limit error (str t) ≡ ok t
unfolding bounded_text
bounded_text_str limit error t h = rw (h) refl

request_target-IsTarget :
    (is_absolute : Text → Bool) (removed : Bool) (fields : Fields) (target : Option (Text × Text))
    → request_target is_absolute removed fields ≡ ok target
    → IsTarget is_absolute removed target
unfolding request_target
request_target-IsTarget is_absolute true fields target h =
    subst (IsTarget is_absolute true) (ok_injective h) refl
request_target-IsTarget is_absolute false fields target h =
    let (version, e1, h1) =
      bind-ok (bounded_text 128 invalid_version (get_value (codes "version") fields)) _ h in
    let (path, e2, h2) =
      bind-ok (bounded_text 4096 invalid_path (get_value (codes "path") fields)) _ h1 in
    let (u, e3, h3) = bind-ok (require (is_absolute path) invalid_path) _ h2 in
    subst (IsTarget is_absolute false) (ok_injective h3) (
      refl,
      bounded_text-ok 128 invalid_version (get_value (codes "version") fields) version e1,
      bounded_text-ok 4096 invalid_path (get_value (codes "path") fields) path e2,
      require-ok (is_absolute path) invalid_path e3,
    )

resume_texts-bounded :
    (vs : List Value) (ts : List Text)
    → resume_texts vs ≡ ok ts
    → (all (is_bounded 257) ts ≡ true) × (length ts ≡ length vs)
unfolding resume_texts
resume_texts-bounded [] ts h =
    subst (λ r. (all (is_bounded 257) r ≡ true) × (length r ≡ 0)) (ok_injective h) (refl, refl)
resume_texts-bounded (v ∷ vs) ts h =
    let (t, e1, h1) = bind-ok (bounded_text 257 invalid_resume v) _ h in
    let (rest, e2, h2) = bind-ok (resume_texts vs) _ h1 in
    let (b, l) = resume_texts-bounded vs rest e2 in
    subst (λ r. (all (is_bounded 257) r ≡ true) × (length r ≡ suc (length vs))) (ok_injective h2)
      (ground (arith, b, bounded_text-ok 257 invalid_resume v t e1), ap suc l)

pub resume_texts_str :
    (ts : List Text) → all (is_bounded 257) ts ≡ true → resume_texts (map (λ t. str t) ts) ≡ ok ts
unfolding resume_texts
resume_texts_str [] h = refl
resume_texts_str (t ∷ ts) h =
    rw
      (
        bounded_text_str 257 invalid_resume t (ground (arith, h)),
        resume_texts_str ts (ground (arith, h)),
      )
      refl

length-insert_sorted :
    (t : Text) (ts : List Text) → length (insert_sorted text_leb t ts) ≡ suc (length ts)
unfolding insert_sorted
length-insert_sorted t [] = refl
length-insert_sorted t (x ∷ ts) = ground (arith, length-insert_sorted t ts)

length-sorted : (ts : List Text) → length (sorted text_leb ts) ≡ length ts
unfolding sorted
length-sorted [] = refl
length-sorted (t ∷ ts) = length-insert_sorted t (sorted text_leb ts) ∙ ap suc (length-sorted ts)

length-remove_all : (t : Text) (ts : List Text) → length (remove_all t ts) ≤ length ts
length-remove_all t [] = omega arith
length-remove_all t (x ∷ ts) = ground (arith, length-remove_all t ts)

length-distinct : (ts : List Text) → length (distinct ts) ≤ length ts
length-distinct [] = omega arith
length-distinct (t ∷ ts) = omega (arith, length-distinct ts, length-remove_all t (distinct ts))

all-insert_sorted :
    (p : Text → Bool) (t : Text) (ts : List Text)
    → all p (insert_sorted text_leb t ts) ≡ (p t && all p ts)
unfolding insert_sorted
all-insert_sorted p t [] = refl
all-insert_sorted p t (x ∷ ts) = ground (arith, all-insert_sorted p t ts)

all-sorted : (p : Text → Bool) (ts : List Text) → all p (sorted text_leb ts) ≡ all p ts
unfolding sorted
all-sorted p [] = refl
all-sorted p (t ∷ ts) = ground (arith, all-insert_sorted p t (sorted text_leb ts), all-sorted p ts)

all-remove_all :
    (p : Text → Bool) (t : Text) (ts : List Text) → all p ts ≡ true → all p (remove_all t ts) ≡ true
all-remove_all p t [] h = refl
all-remove_all p t (x ∷ ts) h = ground (arith, all-remove_all p t ts)

all-distinct : (p : Text → Bool) (ts : List Text) → all p ts ≡ true → all p (distinct ts) ≡ true
all-distinct p [] h = refl
all-distinct p (t ∷ ts) h = ground (arith, all-distinct p ts, all-remove_all p t (distinct ts))

sorted_once : (ts : List Text) → IsNodup ts → IsNodup (sorted text_leb ts)
sorted_once ts n =
    subst IsNodup (map-id (sorted text_leb ts))
      (sorted-IsNodup text_leb (λ t. t) ts (subst IsNodup (sym (map-id ts)) n))

resume-IsRequest :
    (v : Value) (resume : List Text)
    → resume_components v ≡ ok resume
    → (length resume ≤ 256)
      × (all (is_bounded 257) resume ≡ true)
      × IsSorted text_leb resume
      × IsNodup resume
unfolding resume_components
resume-IsRequest (list vs) resume h =
    let (u, e1, h1) = bind-ok (require (leb (length (items vs)) 256) unbounded_resume) _ h in
    let (texts, e2, h2) = bind-ok (resume_texts (items vs)) _ h1 in
    let (b, l) = resume_texts-bounded (items vs) texts e2 in
    let few = require-ok (leb (length (items vs)) 256) unbounded_resume e1 in
    subst
      (λ r. (length r ≤ 256) × (all (is_bounded 257) r ≡ true) × IsSorted text_leb r × IsNodup r)
      (ok_injective h2)
      (
        ground (arith, few, l, length-sorted (distinct texts), length-distinct texts),
        all-sorted (is_bounded 257) (distinct texts) ∙ all-distinct (is_bounded 257) texts b,
        sorted-IsSorted text_leb text_leb_total text_leb_trans (distinct texts),
        sorted_once (distinct texts) (distinct-IsNodup texts),
      )
resume-IsRequest _ resume h = cc

some_injective :
    {q r : TransactionRequest} → ◌≡◌ {A = Option TransactionRequest} (some q) (some r) → q ≡ r
some_injective h = cc

checked_request-IsRequest :
    (is_absolute : Text → Bool) (fields : Fields) (r : TransactionRequest)
    → checked_request is_absolute fields ≡ ok r
    → IsRequest is_absolute r
unfolding checked_request
checked_request-IsRequest is_absolute fields r h =
    let (u, e1, h1) =
      bind-ok (require (is_schema (get_value (codes "schema") fields)) unsupported_schema) _ h in
    let (name, e2, h2) =
      bind-ok (bounded_text 128 invalid_package (get_value (codes "package") fields)) _ h1 in
    let (removed, e3, h3) = bind-ok (as_bool (get_value (codes "removed") fields)) _ h2 in
    let (target, e4, h4) = bind-ok (request_target is_absolute removed fields) _ h3 in
    let (resume, e5, h5) =
      bind-ok (resume_components (get_or (codes "resume_components") (list nil) fields)) _ h4 in
    let (few, bounded, in_order, once) =
      resume-IsRequest (get_or (codes "resume_components") (list nil) fields) resume e5 in
    subst (IsRequest is_absolute) (ok_injective h5) (record {
      named = bounded_text-ok 128 invalid_package (get_value (codes "package") fields) name e2;
      targeted = request_target-IsTarget is_absolute removed fields target e4;
      few = few;
      bounded = bounded;
      in_order = in_order;
      once = once;
    })

pub catalog_transaction_request-IsRequest :
    (is_absolute : Text → Bool) (v : Value) (r : TransactionRequest)
    → catalog_transaction_request is_absolute v ≡ ok (some r)
    → IsRequest is_absolute r
unfolding catalog_transaction_request
catalog_transaction_request-IsRequest is_absolute (dict fields) r h =
    let (q, e, h1) = bind-ok (checked_request is_absolute fields) _ h in
    subst (IsRequest is_absolute) (some_injective (ok_injective h1))
      (checked_request-IsRequest is_absolute fields q e)
catalog_transaction_request-IsRequest is_absolute null r h = cc
catalog_transaction_request-IsRequest is_absolute _ r h = cc
