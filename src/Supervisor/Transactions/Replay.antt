-- ===== src/Supervisor/Transactions/Replay.antt =====
-- A request that was checked, as the dict of the source, passes the checks again unchanged.
use msys_core.Common.{
  remove_all_absent, ◌≤◌, ◌≡◌, refl, ap, ◌∙◌, ◌↔◌, Bool, true, Option, none, some, List, [], ◌∷◌,
  map, all, distinct, remove_all, length, leb, arith, IsNodup, length-map,
}
use msys_core.Common.Result.{ok}
use msys_core.Common.Sorting.{sorted, insert_sorted, IsSorted}
use msys_core.Common.Text.{Text, codes, text_eq, text_leb}
use msys_core.Supervisor.Transactions.{
  TransactionRequest, transaction_schema, is_bounded, as_bool, request_target, resume_components,
  is_schema, checked_request, catalog_transaction_request, invalid_package, invalid_version,
  invalid_path,
}
use msys_core.Supervisor.Transactions.Requests.{
  IsRequest, IsTarget, bounded_text_str, resume_texts_str, catalog_transaction_request-IsRequest,
}
use msys_core.Value.{
  Value, Items, Fields, bool, str, list, dict, nil, cons, items, field, end, get_or,
}

abbrev to_items : List Text → Items
to_items [] = nil
to_items (t ∷ ts) = cons (str t) (to_items ts)

abbrev target_fields : Option (Text × Text) → Fields → Fields
target_fields none rest = rest
target_fields (some (version, path)) rest =
    field (str (codes "version")) (str version) (field (str (codes "path")) (str path) rest)

abbrev resume_fields : List Text → Fields
resume_fields [] = end
resume_fields (t ∷ ts) = field (str (codes "resume_components")) (list (to_items (t ∷ ts))) end

-- The dict that the source returns.
abbrev pub request_value : TransactionRequest → Value
request_value r = dict (
    field (str (codes "schema")) (str transaction_schema) (
      field (str (codes "package")) (str r.package_id) (
        field (str (codes "removed")) (bool r.removed)
          (target_fields r.target (resume_fields r.resume_components)))))

items-to_items : (ts : List Text) → items (to_items ts) ≡ map (λ t. str t) ts
items-to_items [] = refl
items-to_items (t ∷ ts) = ap (◌∷◌ (str t)) (items-to_items ts)

distinct_once : (ts : List Text) → IsNodup ts → distinct ts ≡ ts
distinct_once [] n = refl
distinct_once (t ∷ ts) n =
    ap (λ r. t ∷ remove_all t r) (distinct_once ts n.1) ∙ ap (◌∷◌ t) (remove_all_absent t ts n.0)

insert_first :
    (t : Text) (ts : List Text) → all (text_leb t) ts ≡ true → insert_sorted text_leb t ts ≡ t ∷ ts
unfolding insert_sorted
insert_first t [] h = refl
insert_first t (x ∷ ts) h = ground (arith, h)

sorted_again : (ts : List Text) → IsSorted text_leb ts → sorted text_leb ts ≡ ts
unfolding sorted
sorted_again [] h = refl
sorted_again (t ∷ ts) h =
    ap (insert_sorted text_leb t) (sorted_again ts h.1) ∙ insert_first t ts h.0

resume_again :
    (ts : List Text)
    → length ts ≤ 256
    → all (is_bounded 257) ts ≡ true
    → IsSorted text_leb ts
    → IsNodup ts
    → resume_components (list (to_items ts)) ≡ ok ts
unfolding resume_components
resume_again ts few bounded in_order once =
    let count : leb (length (map (λ t. str t) ts)) 256 ≡ true =
      ground (arith, few, length-map (λ t. str t) ts) in
    rw (items-to_items ts, count, resume_texts_str ts bounded)
      (ap ok (ap (sorted text_leb) (distinct_once ts once) ∙ sorted_again ts in_order))

resume_field_again :
    (target : Option (Text × Text)) (package_id : Text) (removed : Bool) (ts : List Text)
    → resume_components (list (to_items ts)) ≡ ok ts
    → resume_components (
        get_or (codes "resume_components") (list nil) (
          field (str (codes "schema")) (str transaction_schema) (
            field (str (codes "package")) (str package_id) (
              field
                (str (codes "removed"))
                (bool removed)
                (target_fields target (resume_fields ts))))))
      ≡ ok ts
resume_field_again none package_id removed [] h = h
resume_field_again none package_id removed (t ∷ ts) h = h
resume_field_again (some (version, path)) package_id removed [] h = h
resume_field_again (some (version, path)) package_id removed (t ∷ ts) h = h

target_again :
    (is_absolute : Text → Bool) (removed : Bool) (target : Option (Text × Text)) (package_id : Text)
    → (rest : Fields) → IsTarget is_absolute removed target
    → request_target is_absolute removed (
        field (str (codes "schema")) (str transaction_schema) (
          field
            (str (codes "package"))
            (str package_id)
            (field (str (codes "removed")) (bool removed) (target_fields target rest))))
      ≡ ok target
unfolding request_target
target_again is_absolute removed none package_id rest h = rw (h) refl
target_again is_absolute removed (some (version, path)) package_id rest (not_removed, v, p, a) =
    rw
      (
        not_removed,
        bounded_text_str 128 invalid_version version v,
        bounded_text_str 4096 invalid_path path p,
        a,
      )
      refl

replay :
    (is_absolute : Text → Bool) (r : TransactionRequest)
    → IsRequest is_absolute r
    → catalog_transaction_request is_absolute (request_value r) ≡ ok (some r)
unfolding catalog_transaction_request checked_request is_schema as_bool
replay is_absolute r h =
    let name = bounded_text_str 128 invalid_package r.package_id h.named in
    let target =
      target_again is_absolute r.removed r.target r.package_id (resume_fields r.resume_components)
        h.targeted in
    let resume =
      resume_field_again r.target r.package_id r.removed r.resume_components
        (resume_again r.resume_components h.few h.bounded h.in_order h.once) in
    rw (name, target, resume) refl

-- The checks return just the requests with a bounded package id, with a bounded version and a
-- bounded absolute path exactly if the package is not removed, and with at most 256 bounded
-- components to resume, sorted, none twice; and a returned request, as a dict, is returned again
-- unchanged.
pub catalog_transaction_request_iff :
    (is_absolute : Text → Bool) (r : TransactionRequest)
    → (((v : Value) × (catalog_transaction_request is_absolute v ≡ ok (some r)))
        ↔ IsRequest is_absolute r)
      × ((catalog_transaction_request is_absolute (request_value r) ≡ ok (some r))
          ↔ IsRequest is_absolute r)
catalog_transaction_request_iff is_absolute r = (
  (
    λ (v, h). catalog_transaction_request-IsRequest is_absolute v r h,
    λ h. (request_value r, replay is_absolute r h),
  ),
  (
    λ h. catalog_transaction_request-IsRequest is_absolute (request_value r) r h,
    λ h. replay is_absolute r h,
  ),
)
