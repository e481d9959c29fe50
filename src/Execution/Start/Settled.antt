-- ===== src/Execution/Start/Settled.antt =====
-- reconciliation_execution_service.py: how the batch stands when an execution ends.
use raj_data_handle.Base.{
  ℕ, ◌+◌, ◌%◌, refl, ap, inl, inr, String, Bool, true, false, List, [], ◌∷◌, ◌++◌, eqb, length,
  Bool-cases, if◌then◌else◌, ◌||◌,
}
use raj_data_handle.Value.{Fields, str_of}
use raj_data_handle.Payment.{DateTime, PaymentOrderGroup}
use raj_data_handle.BatchState.{
  validating, fetching_remote, comparing, rechecking, completed, terminal_batch_statuses, is_in,
}
use raj_data_handle.Remote.{Channel}
use raj_data_handle.Execution.Steps.{
  Run, World, Outcome, value, raised, returned, pure, proceed, ◌>>=◌, lift,
}
use raj_data_handle.Execution.{
  Decided, transition, unless_cancelled, first_pass, recheck_one, report, recheck, recheck_all,
  decide,
}
use raj_data_handle.Execution.Publish.{compare_found, save_results, finalize, publish}
use raj_data_handle.Execution.Start.{
  guarded, is_invalid, is_execution_error, read_inputs, open_client, fetch_and_compare,
  fetch_and_decide, execute_reconciliation_batch,
}
use raj_data_handle.Execution.Start.Inputs.{Front, ReadInputs, validated, selected_channels}
use raj_data_handle.Execution.Start.Times.{window_bounds}
use raj_data_handle.Execution.Start.Ended.{
  IsDone, Ends, Done, At, bind-Ends, bind-Done, lift-Ends, lift-bind, remote-bind, pure-Ends,
  unless_cancelled-Ends, attempt-Ends, guarded-Ends, transition-At, transition-Ends,
  set_progress-Ends,
}

module _ (world : World) where
  -- the last step: completed, and the result rows final
  completed-Done : Done (transition world completed >>= λ _. finalize world)
  unfolding ◌>>=◌ finalize
  completed-Done = record {
    from = λ s.
        finalized-IsDone s.batch.id (transition world completed s).0
          (transition world completed s).1 (transition-At world completed s);
  }
    where
      finalized-IsDone :
          (id : String) (r : Outcome Unit) (t : Run)
          → At id completed (r, t)
          → IsDone id (proceed r (λ _. finalize world) t)
      finalized-IsDone id (value _) t (e, h) =
          (e, λ row found. inl (ap (λ x. is_in x terminal_batch_statuses) (h row found)))
      finalized-IsDone id (raised e) t h = (h, tt)
      finalized-IsDone id returned t h = elim h [ ]

  recheck_one-Ends :
      (channels : List Channel) (p : PaymentOrderGroup) → Ends (recheck_one world channels p)
  unfolding recheck_one
  recheck_one-Ends channels p = remote-bind _ _ λ exact. lift-bind _ _ λ d. pure-Ends _

  report-Ends : (total index decided : ℕ) → Ends (report world total index decided)
  unfolding report
  report-Ends total index decided = elim (Bool-cases (eqb (index % 25) 0 || eqb index total)) [
    | inl e ↦ rw e (set_progress-Ends world _)
    | inr e ↦ rw e (pure-Ends _)
  ]

  when-Ends : (test : Bool) → Ends (if test then unless_cancelled world else pure tt)
  when-Ends true = unless_cancelled-Ends world
  when-Ends false = pure-Ends _

  recheck-Ends :
      (channels : List Channel) (total index : ℕ) (groups : List PaymentOrderGroup)
      (decisions : List Decided)
      → Ends (recheck world channels total index groups decisions)
  unfolding recheck
  recheck-Ends channels total index [] decisions = pure-Ends decisions
  recheck-Ends channels total index (p ∷ groups) decisions =
      bind-Ends _ _ (when-Ends (eqb (index % 25) 1)) λ _.
        bind-Ends _ _ (recheck_one-Ends channels p) λ one.
          bind-Ends _ _ (report-Ends total index _)
            λ _. recheck-Ends channels total (index + 1) groups (decisions ++ one ∷ [])

  recheck_all-Ends :
      (channels : List Channel) (groups : List PaymentOrderGroup) (decisions : List Decided)
      → Ends (recheck_all world channels groups decisions)
  unfolding recheck_all
  recheck_all-Ends channels [] decisions = pure-Ends decisions
  recheck_all-Ends channels (p ∷ groups) decisions =
      bind-Ends _ _ (unless_cancelled-Ends world) λ _.
        bind-Ends _ _ (transition-Ends world rechecking)
          λ _. recheck-Ends channels (length (p ∷ groups)) 1 (p ∷ groups) decisions

  decide-Ends :
      (channels : List Channel) (orders : List Fields) (groups : List PaymentOrderGroup)
      → Ends (decide world channels orders groups)
  unfolding decide
  decide-Ends channels orders groups =
      lift-bind (first_pass orders groups) _ λ (decisions, candidates).
        bind-Ends _ _ (set_progress-Ends world _)
          λ _. recheck_all-Ends channels candidates decisions

  compare_found-Ends :
      (channels : List Channel) (rows pages : ℕ) (orders : List Fields)
      (groups : List PaymentOrderGroup)
      → Ends (compare_found world channels rows pages orders groups)
  unfolding compare_found
  compare_found-Ends channels rows pages orders groups =
      bind-Ends _ _ (set_progress-Ends world _) λ _.
        bind-Ends _ _ (unless_cancelled-Ends world) λ _.
          bind-Ends _ _ (transition-Ends world comparing) λ _. decide-Ends channels orders groups

  save_results-Ends :
      (shown_list : List ℕ → String) (shown_dict : Fields → String) (decisions : List Decided)
      → Ends (save_results shown_list shown_dict decisions)
  unfolding save_results
  save_results-Ends shown_list shown_dict decisions = record { from = λ s. (refl, tt) }

  publish-Done :
      (shown_list : List ℕ → String) (shown_dict : Fields → String) (decisions : List Decided)
      → Done (publish world shown_list shown_dict decisions)
  unfolding publish
  publish-Done shown_list shown_dict decisions =
      bind-Done (save_results shown_list shown_dict decisions) _
        (save_results-Ends shown_list shown_dict decisions)
        λ _. bind-Done _ _ (unless_cancelled-Ends world) λ _.
          bind-Done _ _ (set_progress-Ends world _)
            λ _. bind-Done _ _ (unless_cancelled-Ends world) λ _. completed-Done

module _ (world : World) (front : Front) where
  read_inputs-Ends : Ends (read_inputs world front)
  unfolding read_inputs
  read_inputs-Ends = record {
    from = λ s. (lift-Ends (validated front s.batch (world.others s.moment s.store))).from _;
  }

  open_client-Ends : (credentials : Fields) → Ends (open_client world front credentials)
  unfolding open_client
  open_client-Ends credentials = lift-bind _ _ λ client. record { from = λ s. (refl, tt) }

  fetch_and_compare-Ends :
      (inputs : ReadInputs) (lower upper : DateTime) (create_start create_end zone : String)
      (channels : List Channel)
      → Ends
          (fetch_and_compare world front inputs lower upper create_start create_end zone channels)
  unfolding fetch_and_compare
  fetch_and_compare-Ends inputs lower upper create_start create_end zone channels =
      bind-Ends _ _ (open_client-Ends inputs.credentials) λ _. remote-bind _ _ λ (orders, pages).
        lift-bind _ _ λ time_field. lift-bind _ _ λ filtered.
          compare_found-Ends world channels (length orders) pages filtered inputs.imported.groups

  fetch_and_decide-Ends : (inputs : ReadInputs) → Ends (fetch_and_decide world front inputs)
  unfolding fetch_and_decide
  fetch_and_decide-Ends inputs = lift-bind _ _ λ zone.
      bind-Ends
        (guarded world is_execution_error (lift (window_bounds front inputs.window (str_of zone))))
        _
        (guarded-Ends world is_execution_error
          (lift (window_bounds front inputs.window (str_of zone)))
          (lift-Ends (window_bounds front inputs.window (str_of zone))))
        λ (lower, upper). lift-bind _ _ λ query_lower. lift-bind _ _ λ query_upper.
          bind-Ends (λ s. lift (selected_channels s.batch.parameters_json) s) _
            (record { from = λ s. (lift-Ends (selected_channels s.batch.parameters_json)).from s })
            λ channels.
              attempt-Ends world _ (fetch_and_compare-Ends inputs lower upper _ _ _ channels)

  -- Whatever the site answers and other sessions commit, an execution that does not raise leaves the
  -- row of its batch, where it is still there, in a terminal status or in cancelling.
  pub execute-IsDone :
      (shown_list : List ℕ → String) (shown_dict : Fields → String)
      → Done (execute_reconciliation_batch world front shown_list shown_dict)
  unfolding execute_reconciliation_batch
  execute-IsDone shown_list shown_dict = bind-Done _ _ (transition-Ends world validating) λ _.
      bind-Done _ _ (guarded-Ends world is_invalid _ read_inputs-Ends) λ inputs.
        bind-Done _ _ (set_progress-Ends world _) λ _.
          bind-Done _ _ (unless_cancelled-Ends world) λ _.
            bind-Done _ _ (transition-Ends world fetching_remote) λ _.
              bind-Done _ _ (fetch_and_decide-Ends inputs)
                λ decisions. publish-Done world shown_list shown_dict decisions
