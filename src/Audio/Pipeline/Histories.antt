-- ===== src/Audio/Pipeline/Histories.antt =====
-- code/ai-gateway/modules/audio/pipeline.py: the histories that are kept per participant.
use diplom_code.Base.{
  ℕ, ◌≤◌, String, Option, none, some, List, [], ◌∷◌, ◌++◌, length, last_n, string_eq, nat_eq,
  int_eq, inl, inr, Bool-cases, ◌==◌, arith, length-last_n,
}
use diplom_code.Base.Dict.{Dict, lookup_or, insert, lookup_or-insert}
use diplom_code.Py.{Runtime, Fields}
use diplom_code.Config.{Disk}
use diplom_code.Act.{World, count, send, sent_by, remember, observe, read_config}
use diplom_code.Act.Keeps.{Kept}
use diplom_code.Audio.Pipeline.{
  AudioInputs, process_audio, append_to, arrive, with_interval, with_energy, max_intervals,
  max_energies,
}
use diplom_code.Audio.Pipeline.Kept.{KeptByPlugin, process_audio-Kept}

module _ ⦃rt : Runtime⦄ where
  abbrev pub AtMost : ℕ → Dict String (List rt.F) → Type 0
  AtMost n d = (key : String) → length (lookup_or key [] d) ≤ n

  -- Room for 12 intervals and 8 energies of each participant.
  abbrev pub HistoriesFit : World → Type 0
  HistoriesFit w = AtMost max_intervals w.1.iat_ms × AtMost max_energies w.1.rms_hist

  append_to-AtMost :
      (n : ℕ) (key : String) (x : rt.F) (d : Dict String (List rt.F))
      → AtMost n d
      → AtMost n (append_to n key x d)
  unfolding append_to
  append_to-AtMost n key x d h k = elim (Bool-cases (key == k)) [
    | inl same ↦
        rw (lookup_or-insert key k (last_n n (lookup_or key [] d ++ x ∷ [])) [] d, same)
          (ground (arith, length-last_n n (lookup_or key [] d ++ x ∷ [])))
    | inr other ↦
        rw (lookup_or-insert key k (last_n n (lookup_or key [] d ++ x ∷ [])) [] d, other) (h k)
  ]

  sent_by-HistoriesFit :
      (o : Option String) (msg : Fields) (w : World)
      → HistoriesFit w
      → HistoriesFit (sent_by o msg w).1
  sent_by-HistoriesFit none msg (g, s) h = h
  sent_by-HistoriesFit (some e) msg (g, s) h = h

  histories_kept : Kept HistoriesFit (λ _. Unit {0})
  unfolding count send remember observe read_config
  histories_kept = record {
    counting = λ k w h. h;
    sending = λ msg w m h. sent_by-HistoriesFit (w.1.wire w.1.tried) msg w h;
    remembering = λ p w h. h;
    observing = λ name ms w h. h;
    calling = λ c w h. h;
  }

  with_interval-HistoriesFit :
      (key : String) (o : Option rt.F) (w : World)
      → HistoriesFit w
      → HistoriesFit (w.0, with_interval key o w.1)
  with_interval-HistoriesFit key none w h = h
  with_interval-HistoriesFit key (some x) w (h, k) =
      (append_to-AtMost max_intervals key x w.1.iat_ms h, k)

  with_energy-HistoriesFit :
      (key : String) (o : Option rt.F) (w : World)
      → HistoriesFit w
      → HistoriesFit (w.0, with_energy key o w.1)
  with_energy-HistoriesFit key none w h = h
  with_energy-HistoriesFit key (some x) w (h, k) =
      (h, append_to-AtMost max_energies key x w.1.rms_hist k)

  histories_own : KeptByPlugin HistoriesFit
  unfolding arrive
  histories_own = record {
    arriving = λ key now (g, s) h.
        with_interval-HistoriesFit key _
          (g, record s { last_chunk_ms = insert key now s.last_chunk_ms }) h;
    noting = λ key x w h. with_energy-HistoriesFit key x w h;
  }

  read-HistoriesFit : (d : Disk) (w : World) → HistoriesFit w → HistoriesFit (read_config d w).1
  unfolding read_config
  read-HistoriesFit d w h = h

  -- Whatever message comes in, and whether or not its handling raises an exception, the audio
  -- plugin keeps at most 12 intervals and at most 8 energies of each participant.
  pub process_audio-HistoriesFit :
      (d : Disk) (msg : Fields) (i : AudioInputs) (w : World)
      → HistoriesFit w
      → HistoriesFit (process_audio d msg i w).1
  process_audio-HistoriesFit d msg i w h =
      process_audio-Kept HistoriesFit (λ _. Unit {0}) histories_kept histories_own d msg i w
        (read-HistoriesFit d w h) (λ _ _ _. tt) (λ _ _ _. tt) h
