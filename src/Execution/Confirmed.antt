-- ===== src/Execution/Confirmed.antt =====
-- reconciliation_execution_service.py: what a confirmed omission rests on.
use raj_data_handle.Base.{
  ◌≡◌, ◌≢◌, refl, sym, ap, ◌∙◌, inl, inr, Bool, true, false, Option, none, some, List, ok, arith,
  Member, All-Member,
}
use raj_data_handle.Value.{Fields}
use raj_data_handle.Payment.{PaymentOrderGroup, confirmed_missing}
use raj_data_handle.Engine.{ReconciliationDecision, compare_with_remote_orders}
use raj_data_handle.Engine.Statuses.{compare-NotMissing}
use raj_data_handle.Remote.{Channel}
use raj_data_handle.Remote.Session.{Client}
use raj_data_handle.Remote.Orders.{ExactSearchResult, exact_search, lookups}
use raj_data_handle.Remote.Orders.Exact.{WholeSearch, exact_search-complete}
use raj_data_handle.Execution.Steps.{Run, World, value}
use raj_data_handle.Execution.{Decided, after_search, or_empty, decide}
use raj_data_handle.Execution.Decisions.{Unanswered, Searched, Justified, decide-IsDecided}

-- A complete exact search for a group whose orders leave the group without an answer.
pub record IsMissing (world : World) (channels : List Channel) (p : PaymentOrderGroup)
    : Type 0 where
  pub client : Client
  pub exact : ExactSearchResult
  pub searched :
      (exact_search world.site channels (or_empty p.merchant_order_no) p.platform_order_no client).0
      ≡ ok exact
  pub whole :
      WholeSearch world.site channels
        (lookups (or_empty p.merchant_order_no) p.platform_order_no)
        client
  pub absent : compare_with_remote_orders p exact.orders true ≡ ok none

after_search-missing :
    (complete : Bool) (found : Option ReconciliationDecision)
    → ((d : ReconciliationDecision) → found ≡ some d → d.result_status ≢ confirmed_missing)
    → (after_search complete found).result_status ≡ confirmed_missing
    → (complete ≡ true) × (found ≡ none)
unfolding after_search
after_search-missing complete none h m = ground arith
after_search-missing complete (some d) h m = absurd (h d refl m)

module _ (world : World) (channels : List Channel) (orders : List Fields) where
  Searched-IsMissing :
      (x : Decided)
      → x.0.preliminary_result_status ≡ none
      → x.1.result_status ≡ confirmed_missing
      → Searched world.site channels x
      → IsMissing world channels x.0
  Searched-IsMissing x classified m s =
      let (complete, absent) =
        after_search-missing s.exact.complete s.found
          (λ d e. compare-NotMissing x.0 true s.exact.orders classified d (s.compared ∙ ap ok e))
          (ap (λ (d : ReconciliationDecision). d.result_status) (sym s.decided) ∙ m) in
      record {
        client = s.client;
        exact = s.exact;
        searched = s.searched;
        whole = exact_search-complete world.site channels _ _ s.client s.exact s.searched complete;
        absent = s.compared ∙ ap ok absent;
      }

  Justified-IsMissing :
      (x : Decided)
      → x.0.preliminary_result_status ≡ none
      → x.1.result_status ≡ confirmed_missing
      → Justified world channels orders x
      → Unanswered orders x.0 × IsMissing world channels x.0
  Justified-IsMissing x classified m (inl compared) =
      absurd (compare-NotMissing x.0 false orders classified x.1 compared m)
  Justified-IsMissing x classified m (inr (unanswered, searched)) =
      (unanswered, Searched-IsMissing x classified m searched)

  -- A group without a preliminary status is decided as a confirmed omission only if the comparison
  -- with the fetched orders found no order for it, every lookup of an exact search for its numbers
  -- was answered in full, and the orders of that search leave it without an answer too.
  pub confirmed-IsMissing :
      (groups : List PaymentOrderGroup) (s : Run) (decisions : List Decided) (x : Decided)
      → (decide world channels orders groups s).0 ≡ value decisions
      → Member x decisions
      → x.0.preliminary_result_status ≡ none
      → x.1.result_status ≡ confirmed_missing
      → Unanswered orders x.0 × IsMissing world channels x.0
  confirmed-IsMissing groups s decisions x h there classified m =
      let r = decide-IsDecided world channels orders groups s decisions h in
      Justified-IsMissing x classified m
        (All-Member (Justified world channels orders) decisions x r.justified there)
