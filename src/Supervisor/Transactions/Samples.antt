-- ===== src/Supervisor/Transactions/Samples.antt =====
-- Requests of an installer, and the theorem at one.
use msys_core.Common.{◌≡◌, ◌↔◌, refl, Bool, false, some, [], ◌∷◌}
use msys_core.Common.Result.{ok, err}
use msys_core.Common.Sorting.{sorted}
use msys_core.Common.Text.{Text, codes, starts_with}
use msys_core.Supervisor.Transactions.{
  TransactionRequest, transaction_schema, is_bounded, bounded_text, as_bool, request_target,
  resume_texts, resume_components, is_schema, checked_request, catalog_transaction_request,
  invalid_path,
}
use msys_core.Supervisor.Transactions.Replay.{request_value, catalog_transaction_request_iff}
use msys_core.Supervisor.Transactions.Requests.{IsRequest}
use msys_core.Value.{Value, Fields, bool, str, list, cons, nil, dict, field, end}

program : Unit {0}
unfolding is_bounded bounded_text as_bool request_target resume_texts resume_components is_schema
    checked_request catalog_transaction_request sorted
program = tt

abbrev is_absolute : Text → Bool
is_absolute = starts_with (codes "/")

abbrev request : Text → Fields
request path = field (str (codes "schema")) (str transaction_schema) (
    field (str (codes "package")) (str (codes "mail")) (
      field (str (codes "removed")) (bool false) (
        field (str (codes "version")) (str (codes "2")) (
          field (str (codes "path")) (str path) (
            field (str (codes "resume_components"))
              (list (
                cons (str (codes "mail:b"))
                  (cons (str (codes "mail:a")) (cons (str (codes "mail:b")) nil))))
              end)))))

abbrev switch_mail : TransactionRequest
switch_mail = record {
  package_id = codes "mail";
  removed = false;
  target = some (codes "2", codes "/opt/mail");
  resume_components = codes "mail:a" ∷ codes "mail:b" ∷ [];
}

requests :
    (catalog_transaction_request is_absolute (dict (request (codes "/opt/mail")))
      ≡ ok (some switch_mail))
    × (catalog_transaction_request is_absolute (dict (request (codes "opt/mail")))
        ≡ err invalid_path)
unfolding program
requests = (refl, refl)

catalog_transaction_request_iff_example :
    (((v : Value) × (catalog_transaction_request is_absolute v ≡ ok (some switch_mail)))
      ↔ IsRequest is_absolute switch_mail)
    × ((catalog_transaction_request is_absolute (request_value switch_mail) ≡ ok (some switch_mail))
        ↔ IsRequest is_absolute switch_mail)
catalog_transaction_request_iff_example = catalog_transaction_request_iff is_absolute switch_mail
