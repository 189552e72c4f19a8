-- ===== src/Race/Replay.antt =====
-- The replay info over a sequence of messages.
use iracelog_service_manager.Base.{
  ℕ, true, false, some, List, [], ◌∷◌, ◌≡◌, refl, ◌∙◌, arith, index_func,
}
use iracelog_service_manager.Car.Types.{StateRequest}
use iracelog_service_manager.Car.Payload.{contains}
use iracelog_service_manager.Race.Types.{RaceProcessor}
use iracelog_service_manager.Race.Payload.{is_race_start, process_replay_info}

module _ {T : Type 0} where
  -- The replay infos that a sequence of messages leads to.
  unfoldable pub replay_infos : List (StateRequest T) → RaceProcessor T → RaceProcessor T
  replay_infos [] p = p
  replay_infos (m ∷ ms) p = replay_infos ms (process_replay_info m m.session.session_time p)

  abbrev pub SameStart : RaceProcessor T → RaceProcessor T → Type 0
  SameStart p q =
      (q.replay_info.min_timestamp ≡ p.replay_info.min_timestamp)
      × (q.replay_info.min_session_time ≡ p.replay_info.min_session_time)
      × (q.race_sessions ≡ p.race_sessions)

  started-step :
      (m : StateRequest T) (p : RaceProcessor T)
      → p.race_start_marker_found ≡ true
      → let q = process_replay_info m m.session.session_time p in
        (q.race_start_marker_found ≡ true) × SameStart p q
  unfolding process_replay_info
  started-step m p h = ground arith

  -- Once the marker of the race start was found, no further messages move the start of the replay.
  pub replay_infos-started :
      (ms : List (StateRequest T)) (p : RaceProcessor T)
      → p.race_start_marker_found ≡ true
      → SameStart p (replay_infos ms p)
  unfolding replay_infos
  replay_infos-started [] p h = (refl, refl, refl)
  replay_infos-started (m ∷ ms) p h =
      let q = process_replay_info m m.session.session_time p in
      let (h', s) = started-step m p h in
      let (a, b, c) = replay_infos-started ms q h' in (a ∙ s.0, b ∙ s.1, c ∙ s.2)

  marker-step :
      (m : StateRequest T) (p : RaceProcessor T) {i : ℕ}
      → contains p.race_sessions m.session.session_num ≡ true
      → p.race_start_marker_found ≡ false
      → index_func is_race_start m.messages ≡ some i
      → let q = process_replay_info m m.session.session_time p in
        (q.race_start_marker_found ≡ true)
        × (q.replay_info.min_timestamp ≡ some m.timestamp)
        × (q.replay_info.min_session_time ≡ m.session.session_time)
  unfolding process_replay_info
  marker-step m p h f g = ground arith

  -- The first message of a race session that carries the marker of the race start fixes the start of
  -- the replay: whatever messages follow, it is the time of that message.
  pub replay_infos-first_marker :
      (m : StateRequest T) (ms : List (StateRequest T)) (p : RaceProcessor T) {i : ℕ}
      → contains p.race_sessions m.session.session_num ≡ true
      → p.race_start_marker_found ≡ false
      → index_func is_race_start m.messages ≡ some i
      → let q = replay_infos (m ∷ ms) p in
        (q.replay_info.min_timestamp ≡ some m.timestamp)
        × (q.replay_info.min_session_time ≡ m.session.session_time)
  unfolding replay_infos
  replay_infos-first_marker m ms p h f g =
      let q = process_replay_info m m.session.session_time p in
      let (found, ts, t) = marker-step m p h f g in
      let (a, b, c) = replay_infos-started ms q found in (a ∙ ts, b ∙ t)
