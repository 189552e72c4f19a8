-- ===== src/Processing/Snapshots.antt =====
-- ProcessSpeedmap: the snapshots that it takes.
use iracelog_service_manager.Base.{
  ℕ, ◌+◌, ◌<◌, Bool, true, false, some, List, [], ◌∷◌, ◌++◌, ◌≡◌, refl, sym, ◌∙◌, ap, subst, arith,
  ltb, Outcome, ok, ◌>>=◌, Returns, Returns-bind, Returns-eq, if◌then◌else◌, Bool-cases, inl, inr,
}
use mathlib.Core.List.{append_assoc, append-nil}
use iracelog_service_manager.Car.Types.{Session}
use iracelog_service_manager.Processing.Steps.{
  Processor, Sent, SpeedmapRequest, snapshot, speedmap, send, two_minutes, snapshot_of,
  take_snapshot, process_speedmap,
}

-- Each time is more than two minutes after the one before.
abbrev pub Spaced : ℕ → List ℕ → Type 0
Spaced from [] = Unit
Spaced from (t ∷ ts) = (from + two_minutes < t) × Spaced t ts

module _ {T : Type 0} where
  -- ProcessSpeedmap for one message after the other, and all that is sent.
  unfoldable pub process_speedmaps :
      List (SpeedmapRequest T) → Processor T → Outcome (Processor T × List (Sent T))
  unfolding process_speedmap
  process_speedmaps [] p = ok (p, [])
  process_speedmaps (m ∷ ms) p = process_speedmap m p >>= λ (q, sent).
      process_speedmaps ms q >>= λ (r, more). ok (r, sent ++ more)

  -- The times of the snapshots among what is sent.
  abbrev pub stamps : List (Sent T) → List ℕ
  stamps [] = []
  stamps (snapshot s ∷ msgs) = s.record_stamp ∷ stamps msgs
  stamps (_ ∷ msgs) = stamps msgs

  -- What one message does to the time of the last snapshot.
  abbrev Stamped : Processor T → Processor T × List (Sent T) → Type 0
  Stamped p (q, sent) =
      (q.last_session_data ≡ p.last_session_data)
      × ((more : List (Sent T))
          → Spaced q.last_snapshot_time (stamps more)
          → Spaced p.last_snapshot_time (stamps (sent ++ more)))

  take_snapshot-Stamped :
      (m : SpeedmapRequest T) (s : Session T) (p : Processor T)
      → p.last_session_data ≡ some s
      → Returns (Stamped p) (take_snapshot m p)
  unfolding take_snapshot snapshot_of
  take_snapshot-Stamped m s p e =
      elim (Bool-cases (ltb (p.last_snapshot_time + two_minutes) m.timestamp)) [
        | inl due ↦
            let later : p.last_snapshot_time + two_minutes < m.timestamp = ground arith in
            rw (due, e) (refl, λ more h. (later, h))
        | inr early ↦ rw early (refl, λ more h. h)
      ]

  stamps-send :
      (c : Bool) (m : SpeedmapRequest T) (more : List (Sent T))
      → stamps (send c (speedmap m) ++ more) ≡ stamps more
  unfolding send
  stamps-send true m more = refl
  stamps-send false m more = refl

  process_speedmap-Stamped :
      (m : SpeedmapRequest T) (s : Session T) (p : Processor T)
      → p.last_session_data ≡ some s
      → Returns (Stamped p) (process_speedmap m p)
  unfolding process_speedmap
  process_speedmap-Stamped m s p e = by_channel p.channels.snapshot_chan
    where
      sent : List (Sent T)
      sent = send p.channels.speedmap_chan (speedmap m)

      by_channel :
          (c : Bool)
          → Returns (Stamped p) (
              if c then (take_snapshot m p >>= λ (q, more). ok (q, sent ++ more)) else ok (p, sent))
      by_channel true =
          Returns-bind (Stamped p) (Stamped p) (take_snapshot m p) _ (take_snapshot-Stamped m s p e)
            (λ (q, more) (k, f). (
              k,
              λ rest h.
                  subst (Spaced p.last_snapshot_time)
                    (sym (
                      ap stamps (append_assoc sent more rest)
                      ∙ stamps-send p.channels.speedmap_chan m (more ++ rest)))
                    (f rest h),
            ))
      by_channel false =
          (refl, λ rest h. subst (Spaced p.last_snapshot_time) (sym (stamps-send _ m rest)) h)

  all-Stamped :
      (ms : List (SpeedmapRequest T)) (s : Session T) (p : Processor T)
      → p.last_session_data ≡ some s
      → Returns (Stamped p) (process_speedmaps ms p)
  unfolding process_speedmaps
  all-Stamped [] s p e = (refl, λ rest h. h)
  all-Stamped (m ∷ ms) s p e =
      Returns-bind (Stamped p) (Stamped p) (process_speedmap m p) _
        (process_speedmap-Stamped m s p e)
        (λ (q, sent) (k, f).
          Returns-bind (Stamped q) (Stamped p) (process_speedmaps ms q) _
            (all-Stamped ms s q (k ∙ e))
            (λ (r, more) (k', f'). (
              k' ∙ k,
              λ rest h.
                  subst (λ x. Spaced p.last_snapshot_time (stamps x))
                    (sym (append_assoc sent more rest)) (f (more ++ rest) (f' rest h)),
            )))

  -- Once a state message has brought a session, speed maps never end in a panic, and any two
  -- snapshots that they take are more than two minutes apart, the first one from the last before.
  pub process_speedmaps-Spaced :
      (ms : List (SpeedmapRequest T)) (s : Session T) (p : Processor T)
      → p.last_session_data ≡ some s
      → (q : Processor T) × (sent : List (Sent T)) × (process_speedmaps ms p ≡ ok (q, sent))
        × Spaced p.last_snapshot_time (stamps sent)
  process_speedmaps-Spaced ms s p e =
      let (r, f, (k, h)) = Returns-eq (Stamped p) (process_speedmaps ms p) (all-Stamped ms s p e) in
      (r.0, r.1, f, subst (λ x. Spaced p.last_snapshot_time (stamps x)) (append-nil r.1) (h [] tt))
