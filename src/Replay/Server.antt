-- ===== src/Replay/Server.antt =====
-- analysis_server.go: GetAnalysis and ComputeAnalysis. Loading an analysis and its snapshots are function
-- arguments, as is the policy engine; a write that fails is only logged.
use iracelog_service_manager.Base.{
  ℕ, Bool, not, Option, none, some, List, [], ◌∷◌, Outcome, ok, panic, if◌then◌else◌, Float32,
}
use iracelog_service_manager.Base.Results.{Result, done, fail, and_then, permission_denied}
use iracelog_service_manager.Car.Types.{StateRequest, DriverDataRequest}
use iracelog_service_manager.Processing.Compose.{Analysis}
use iracelog_service_manager.Processing.Steps.{SnapshotData}
use iracelog_service_manager.States.Types.{Event, EventSelector, Store}
use iracelog_service_manager.States.Pages.{resolve_event}
use iracelog_service_manager.Live.Types.{PermissionEvaluator, update_event, Write, analysis_upsert}
use iracelog_service_manager.Replay.Recompute.{recompute_event}

-- analysisv1.AnalysisComponent; `other_component` is any other value.
pub data AnalysisComponent : Type 0 where
  racegraph all_components other_component : AnalysisComponent

-- analysisv1.ComputeAnalysisRequest, with whether its mode is to persist the result.
pub record ComputeAnalysisRequest : Type 0 where
  pub event_selector : EventSelector
  pub component : AnalysisComponent
  pub persist_mode_on : Bool

-- What the server asks of the repositories.
pub record AnalysisRepositories (T : Type 0) : Type 0 where
  pub load_by_event_id : ℕ → Result (Analysis T)
  pub load_snapshots : ℕ → ℕ → Result (List (SnapshotData T))

-- What ComputeAnalysis leaves: the writes to the database and its answer.
pub record Computed (T X : Type 0) : Type 0 where
  pub writes : List (Write T X)
  pub answer : Result (Analysis T)

module _ {T F D P : Type 0} (states : Store F D P (StateRequest T))
    (db : AnalysisRepositories T) where
  -- GetAnalysis
  unfoldable pub get_analysis : EventSelector → Result (Analysis T × List (SnapshotData T))
  unfolding resolve_event
  get_analysis selector = and_then (resolve_event states selector) λ e.
      and_then (db.load_by_event_id e.event_id) λ analysis.
        and_then (db.load_snapshots e.event_id 300) λ snapshots. done (analysis, snapshots)

-- The part of the stored analysis that is computed again.
unfoldable pub updated : {T : Type 0} → AnalysisComponent → Analysis T → Analysis T → Analysis T
updated racegraph stored new = record stored { race_graph = new.race_graph }
updated all_components stored new = record stored { race_graph = new.race_graph }
updated other_component stored new = stored

module _ {A T F D P X : Type 0} ⦃float : Float32 T⦄ (pe : PermissionEvaluator A)
    (drivers : Store F D P (DriverDataRequest T)) (states : Store F D P (StateRequest T))
    (db : AnalysisRepositories T) where
  -- The end of ComputeAnalysis, with storeAnalysisData.
  unfoldable pub finish : ComputeAnalysisRequest → Event → Analysis T → Analysis T → Computed T X
  unfolding updated
  finish req e stored new =
      let analysis = updated req.component stored new in
      record {
        writes =
            if req.persist_mode_on then analysis_upsert e.event_id (some analysis) ∷ [] else [];
        answer = done analysis;
      }

  -- ComputeAnalysis once the event and its analysis are loaded.
  unfoldable pub recompute_stored :
      ℕ → ComputeAnalysisRequest → Event → Analysis T → Option (Outcome (Computed T X))
  unfolding recompute_event finish
  recompute_stored fuel req e stored = elim (recompute_event drivers states fuel e) [
    | none ↦ none
    | some panic ↦ some panic
    | some (ok (fail f)) ↦ some (ok (record { writes = []; answer = fail f }))
    | some (ok (done new)) ↦ some (ok (finish req e stored new))
  ]

  -- ComputeAnalysis
  unfoldable pub compute_analysis : ℕ → A → ComputeAnalysisRequest → Option (Outcome (Computed T X))
  unfolding resolve_event recompute_stored
  compute_analysis fuel a req =
      if not (pe.has_permission a update_event)
      then some (ok (record { writes = []; answer = fail permission_denied }))
      else elim (resolve_event states req.event_selector) [
        | fail f ↦ some (ok (record { writes = []; answer = fail f }))
        | done e ↦ elim (db.load_by_event_id e.event_id) [
          | fail f ↦ some (ok (record { writes = []; answer = fail f }))
          | done stored ↦ recompute_stored fuel req e stored
        ]
      ]
