-- ===== src/Live/Delivered.antt =====
-- What the listeners of an event hold once the messages of its processor are delivered.
use iracelog_service_manager.Base.{
  true, some, List, [], ◌∷◌, ◌++◌, ◌≡◌, refl, ◌∙◌, ap, All, Float32, ok,
}
use iracelog_service_manager.Car.Types.{StateRequest}
use iracelog_service_manager.Car.Valid.{IsValid as CarsAreValid}
use iracelog_service_manager.Car.Messages.{IsKnown}
use iracelog_service_manager.Race.Messages.{IsValid as RaceIsValid}
use iracelog_service_manager.Processing.Compose.{compose_analysis_data}
use iracelog_service_manager.Processing.Steps.{
  Processor, Channels, Sent, analysis, racestate, replay, send, process_state,
}
use iracelog_service_manager.Processing.Kept.{process_state-Kept}
use iracelog_service_manager.Live.Types.{EventProcessingData}
use iracelog_service_manager.Live.Lookup.{listen, listen_all}

-- All channels of the processor are set.
abbrev pub all_channels : Channels
all_channels = record {
  analysis_chan = true;
  racestate_chan = true;
  driver_data_chan = true;
  speedmap_chan = true;
  replay_info_chan = true;
  snapshot_chan = true;
}

module _ {T K : Type 0} ⦃F : Float32 T⦄ where
  -- On a live event whose processors are valid and whose channels are set, a state message about
  -- registered cars does not panic, the processors stay valid, and once what is sent is delivered the
  -- event holds the analysis composed from the new processors, the message itself as its last race
  -- state, and the new replay info.
  pub process_state-listen_all :
      (payload : StateRequest T) (epd : EventProcessingData T K)
      → CarsAreValid epd.processor.cars
      → RaceIsValid epd.processor.race
      → All (IsKnown epd.processor.cars) payload.cars
      → epd.processor.channels ≡ all_channels
      → (q : Processor T) × (sent : List (Sent T)) × (process_state payload epd.processor
          ≡ ok (q, sent))
        × CarsAreValid q.cars
        × RaceIsValid q.race
        × ((listen_all sent epd).last_analysis_data ≡ some (compose_analysis_data q.cars q.race))
        × ((listen_all sent epd).last_race_state ≡ some payload)
        × ((listen_all sent epd).last_replay_info ≡ some q.race.replay_info)
  unfolding send listen_all listen
  process_state-listen_all payload epd v w known set =
      let (q, e, v', w', _) = process_state-Kept payload epd.processor v w known in
      (
        q,
        analysis (compose_analysis_data q.cars q.race)
            ∷ racestate payload
            ∷ replay q.race.replay_info
            ∷ [],
        e
            ∙ ap
                (λ (c : Channels). ok (
                  q,
                  send c.analysis_chan (analysis (compose_analysis_data q.cars q.race))
                      ++ send c.racestate_chan (racestate payload)
                      ++ send c.replay_info_chan (replay q.race.replay_info),
                ))
                set,
        v',
        w',
        refl,
        refl,
        refl,
      )
