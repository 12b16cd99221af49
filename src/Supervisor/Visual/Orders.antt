-- ===== src/Supervisor/Visual/Orders.antt =====
-- No client is lost or started twice.
use msys_core.Common.{
  ◌≡◌, refl, not, List, [], ◌∷◌, ◌++◌, elem, filter, distinct, arith, IsNodup, distinct-IsNodup,
  elem-append, elem-filter, elem-remove_all,
}
use msys_core.Common.Sorting.{sorted, elem-sorted}
use msys_core.Common.Text.{Text, text_eq, text_beq_iff, text_leb}
use msys_core.Supervisor.Foreground.{reversed}
use msys_core.Supervisor.Visual.{order_visual_consumer_keys}

elem-distinct : (key : Text) (keys : List Text) → elem key (distinct keys) ≡ elem key keys
elem-distinct key [] = refl
elem-distinct key (k ∷ keys) =
    ground
      (arith, elem-remove_all k key (distinct keys), elem-distinct key keys, text_beq_iff k key)

-- The clients are started again in an order that has each of them once, whatever the profile lists
-- and the foreground stack holds.
pub order_visual_consumer_keys_lem :
    (startup stack candidates : List Text)
    → IsNodup (order_visual_consumer_keys startup stack candidates)
      × ((key : Text)
          → elem key (order_visual_consumer_keys startup stack candidates) ≡ elem key candidates)
unfolding order_visual_consumer_keys
order_visual_consumer_keys_lem startup stack candidates =
    let profile_order = filter (λ key. elem key candidates) startup in
    let remaining = filter (λ key. not (elem key profile_order)) candidates in
    let foreground_order = filter (λ key. elem key remaining) (reversed stack) in
    let others = filter (λ key. not (elem key foreground_order)) remaining in
    (
      distinct-IsNodup (profile_order ++ (foreground_order ++ sorted text_leb others)),
      λ key. ground (
        arith,
        elem-distinct key (profile_order ++ (foreground_order ++ sorted text_leb others)),
        elem-append key profile_order (foreground_order ++ sorted text_leb others),
        elem-append key foreground_order (sorted text_leb others),
        elem-sorted text_leb key others,
        elem-filter (λ k. elem k candidates) key startup,
        elem-filter (λ k. not (elem k profile_order)) key candidates,
        elem-filter (λ k. elem k remaining) key (reversed stack),
        elem-filter (λ k. not (elem k foreground_order)) key remaining,
      ),
    )
