-- ===== src/Market/Luld/Pause.antt =====
-- When the state machine of luv_luld.hpp pauses trading, over any quotes.
use fort.Base.{
  ℕ, ◌+◌, ◌%◌, ◌^◌, ◌≤◌, ◌<◌, ◌≡◌, ◌⊎◌, inl, inr, refl, sym, ap, ◌∙◌, Bool, true, false, not, ◌&&◌,
  ◌||◌, List, [], ◌∷◌, arith, ltb, ◌==◌, if◌then◌else◌, Bool-cases,
}
use fort.Market.Luld.{
  LuldState, normal, straddle, limit_state, trading_pause, LuldConfig, LuldBands, LuldEngine,
  bid_at_upper, ask_at_lower, is_paused, timed_out, pause, at_band, straddling, update_bands,
  update_nbbo,
}

pub record Quote : Type 0 where
  pub best_bid : ℕ
  pub best_ask : ℕ
  pub now_ns : ℕ

-- The quotes in reverse order, the newest first.
unfoldable pub watch : LuldEngine → List Quote → LuldEngine
unfolding update_nbbo
watch e [] = e
watch e (q ∷ qs) = update_nbbo (watch e qs) q.best_bid q.best_ask q.now_ns

-- Neither side is at its band, and both are inside.
abbrev pub settles : LuldBands → Quote → Bool
settles b q =
    not (bid_at_upper b q.best_bid || ask_at_lower b q.best_ask)
    && (ltb b.lower_band q.best_bid && ltb q.best_ask b.upper_band)

-- The quotes from one at `start` to the newest, none of which settles.
abbrev pub Unsettled : LuldBands → ℕ → List Quote → Type 0
Unsettled b start [] = ⊥
Unsettled b start (q ∷ qs) = (settles b q ≡ false) × ((q.now_ns ≡ start) ⊎ Unsettled b start qs)

-- Among the quotes there is one that ends an unsettled run as long as the timeout.
abbrev pub TimedOut : LuldBands → ℕ → List Quote → Type 0
TimedOut b timeout [] = ⊥
TimedOut b timeout (q ∷ qs) =
    ((settles b q ≡ false)
      × ((start : ℕ) × Unsettled b start qs × ((start + timeout) % 2 ^ 64 ≤ q.now_ns)))
    ⊎ TimedOut b timeout qs

-- What the state says of the quotes.
abbrev Tells : LuldBands → ℕ → LuldState → ℕ → List Quote → Type 0
Tells b timeout normal start qs = Unit
Tells b timeout straddle start qs = Unsettled b start qs
Tells b timeout limit_state start qs = Unsettled b start qs
Tells b timeout trading_pause start qs = TimedOut b timeout qs

-- The prices of `b`, with another state.
abbrev pub in_state : LuldBands → LuldState → ℕ → Bool → LuldBands
in_state b s start triggered = record b {
  state = s;
  straddle_start_ns = start;
  pause_triggered = triggered;
}

module _ (c : LuldConfig) (b : LuldBands) (known : (b.reference_price == 0) ≡ false) where
  -- The prices are those of `b`, and the state tells of the quotes.
  abbrev Watched : LuldBands → List Quote → Type 0
  Watched b' qs =
      (s : LuldState) × (start : ℕ) × (triggered : Bool) × (b' ≡ in_state b s start triggered)
      × Tells b c.straddle_timeout_ns s start qs

  -- A state that waits for its timeout, at a quote that does not settle.
  waiting-Watched :
      (s : LuldState) (start : ℕ) (triggered : Bool) (q : Quote) (qs : List Quote)
      → settles b q ≡ false
      → Unsettled b start qs
      → Tells b c.straddle_timeout_ns s start (q ∷ qs)
      → let b' = in_state b s start triggered in
        Watched (if timed_out c b' q.now_ns then pause b' else b') (q ∷ qs)
  waiting-Watched s start triggered q qs away h stays =
      elim (Bool-cases (timed_out c (in_state b s start triggered) q.now_ns)) [
        | inl e ↦ rw e (trading_pause, start, true, refl, inl (away, (start, h, ground (arith, e))))
        | inr e ↦ rw e (s, start, triggered, refl, stays)
      ]

  at_band-Watched :
      (s : LuldState) (start : ℕ) (triggered : Bool) (q : Quote) (qs : List Quote)
      → is_paused s ≡ false
      → settles b q ≡ false
      → Tells b c.straddle_timeout_ns s start qs
      → Watched (at_band c (in_state b s start triggered) q.now_ns) (q ∷ qs)
  unfolding at_band
  at_band-Watched normal start triggered q qs o away h =
      (limit_state, q.now_ns, triggered, refl, (away, inl refl))
  at_band-Watched trading_pause start triggered q qs o away h = cc
  at_band-Watched straddle start triggered q qs o away h =
      waiting-Watched straddle start triggered q qs away h (away, inr h)
  at_band-Watched limit_state start triggered q qs o away h =
      waiting-Watched limit_state start triggered q qs away h (away, inr h)

  straddling-Watched :
      (s : LuldState) (start : ℕ) (triggered : Bool) (q : Quote) (qs : List Quote)
      → is_paused s ≡ false
      → settles b q ≡ false
      → Tells b c.straddle_timeout_ns s start qs
      → Watched (straddling c (in_state b s start triggered) q.now_ns) (q ∷ qs)
  unfolding straddling
  straddling-Watched normal start triggered q qs o away h =
      (straddle, q.now_ns, triggered, refl, (away, inl refl))
  straddling-Watched trading_pause start triggered q qs o away h = cc
  straddling-Watched straddle start triggered q qs o away h =
      waiting-Watched straddle start triggered q qs away h (away, inr h)
  straddling-Watched limit_state start triggered q qs o away h =
      (limit_state, start, triggered, refl, (away, inr h))

  paused-Tells :
      (s : LuldState) (start timeout : ℕ) (q : Quote) (qs : List Quote)
      → is_paused s ≡ true
      → Tells b timeout s start qs
      → Tells b timeout s start (q ∷ qs)
  paused-Tells trading_pause start timeout q qs o h = inr h
  paused-Tells normal start timeout q qs o h = cc
  paused-Tells straddle start timeout q qs o h = cc
  paused-Tells limit_state start timeout q qs o h = cc

  update_bands-Watched :
      (s : LuldState) (start : ℕ) (triggered : Bool) (q : Quote) (qs : List Quote)
      → Tells b c.straddle_timeout_ns s start qs
      → Watched
          (update_bands c (in_state b s start triggered) q.best_bid q.best_ask q.now_ns)
          (q ∷ qs)
  unfolding update_bands
  update_bands-Watched s start triggered q qs h = elim (Bool-cases (is_paused s)) [
    | inl e ↦
        rw (known, e)
          (s, start, triggered, refl, paused-Tells s start c.straddle_timeout_ns q qs e h)
    | inr e ↦ elim (Bool-cases (bid_at_upper b q.best_bid || ask_at_lower b q.best_ask)) [
      | inl l ↦ rw (known, e, l) (at_band-Watched s start triggered q qs e (rw l refl) h)
      | inr l ↦ elim (Bool-cases (ltb b.lower_band q.best_bid && ltb q.best_ask b.upper_band)) [
        | inl k ↦ rw (known, e, l, k) (normal, 0, triggered, refl, tt)
        | inr k ↦
            rw (known, e, l, k) (straddling-Watched s start triggered q qs e (rw (l, k) refl) h)
      ]
    ]
  ]

watch-config : (e : LuldEngine) (qs : List Quote) → (watch e qs).config ≡ e.config
unfolding watch update_nbbo
watch-config e [] = refl
watch-config e (q ∷ qs) = watch-config e qs

watch_step :
    (e : LuldEngine) (q : Quote) (qs : List Quote)
    → (watch e (q ∷ qs)).bands
      ≡ update_bands (watch e qs).config (watch e qs).bands q.best_bid q.best_ask q.now_ns
unfolding watch
watch_step e q qs = refl

watch-none : (e : LuldEngine) → watch e [] ≡ e
unfolding watch
watch-none e = refl

watch-Watched :
    (e : LuldEngine) (qs : List Quote) (known : (e.bands.reference_price == 0) ≡ false)
    → e.bands.state ≡ normal
    → Watched e.config e.bands known (watch e qs).bands qs
watch-Watched e [] known calm = (
  normal,
  e.bands.straddle_start_ns,
  e.bands.pause_triggered,
  rw (watch-none e) (λ i. record e.bands { state = calm i }),
  tt,
)
watch-Watched e (q ∷ qs) known calm =
    let (s, start, triggered, same, h) = watch-Watched e qs known calm in
    rw (watch_step e q qs, watch-config e qs, same)
      (update_bands-Watched e.config e.bands known s start triggered q qs h)

-- From a normal state with a reference price, over any quotes, of which `qs` has the newest first: trading
-- is paused only if, among them, there was a run of quotes that did not settle and that lasted the timeout.
-- A quote settles if neither side is at its band and both are inside. Times are added as uint64_t.
pub watch-TimedOut :
    (e : LuldEngine) (qs : List Quote)
    → 0 < e.bands.reference_price
    → e.bands.state ≡ normal
    → (watch e qs).bands.state ≡ trading_pause
    → TimedOut e.bands e.config.straddle_timeout_ns qs
watch-TimedOut e qs known calm paused =
    let (s, start, triggered, same, h) = watch-Watched e qs (ground (arith, known)) calm in
    let at : s ≡ trading_pause = sym (ap (λ b. b.state) same) ∙ paused in rw at at h
