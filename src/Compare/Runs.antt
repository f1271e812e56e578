-- ===== src/Compare/Runs.antt =====
-- How a run of get_metrics ends.
use mlab_ns.Base.{
  ℕ, zero, suc, ◌+◌, ◌<◌, Bool, true, false, String, Option, some, List, [], ◌∷◌, ◌≡◌, ◌≢◌, refl,
  ap, arith, length, map, ◌∙◌, nat_eq, if_elim,
}
use mlab_ns.Base.Errors.{PyError, Result, ok, raise, ◌>>=◌}
use mlab_ns.Page.{Answer, received}
use mlab_ns.Runtime.{FloatOps}
use mlab_ns.Lookup.{JsonData}
use mlab_ns.Compare.{
  Status, single, Samples, default_samples, given, Options, Comparison, compared, get_mlabns_status,
  filter_results, filter_single, Totals, totals_with, Line, line_of, counted, Ending, done, stopped,
  running, goes_on, no_totals, header, row, rounds, get_metrics,
}

goes_on_zero : (s : Samples) → goes_on 0 s ≡ true
goes_on_zero default_samples = refl
goes_on_zero (given s) = refl

filter_single-raise :
    (patterns : List (String → Bool)) → (e : PyError) × (filter_single patterns ≡ raise e)
filter_single-raise [] = (_, refl)
filter_single-raise (p ∷ ps) = (_, refl)

module _ {F : Type 0} (fl : FloatOps F) (o : Options)
    (sent : ℕ → Answer (Option Status) × Answer (Option Status)) where
  -- What the two instances send for a sample can be compared, and is not nothing.
  abbrev pub IsComparable : ℕ → Type 0
  IsComparable n =
      (c : Comparison) × (compared fl o (sent n).0 (sent n).1 ≡ ok c)
      × (length c.common + length c.missing + length c.extra ≢ 0)

  -- The ending of a run, and how many lines it prints.
  abbrev pub Ends : Ending → ℕ → List (Line F) × Ending → Type 0
  Ends ending n r = (r.1 ≡ ending) × (length r.0 ≡ n)

  -- One round, where the sample can be compared.
  round_of :
      (t : Totals)
      → IsComparable t.samples
      → (c : Comparison) × ((compared fl o (sent t.samples).0 (sent t.samples).1
            >>= (λ c. counted fl o t c))
          ≡ ok (line_of fl o c (totals_with fl o c t), totals_with fl o c t))
  unfolding counted
  round_of t (c, e, h) = (
    c,
    rw e (
        if_elim
          (λ (r : Result (Line F × Totals)).
            r ≡ ok (line_of fl o c (totals_with fl o c t), totals_with fl o c t))
          (nat_eq (length c.common + length c.missing + length c.extra) 0) _ _
          (λ z. absurd (h (ground (arith, z)))) (λ _. refl)),
  )

  module _ (comparable : (n : ℕ) → IsComparable n) where
    -- A round that goes on adds a line to those of the rest.
    round-Ends :
        (ending : Ending) (k fuel : ℕ) (t : Totals)
        → goes_on t.samples o.samples ≡ true
        → ((t' : Totals) → t'.samples ≡ t.samples + 1 → Ends ending k (rounds fl o sent fuel t'))
        → Ends ending (suc k) (rounds fl o sent (suc fuel) t)
    unfolding rounds
    round-Ends ending k fuel t on rest =
        let (c, e) = round_of t (comparable t.samples) in
        let (same, count) = rest (totals_with fl o c t) refl in rw (on, e) (same, ap suc count)

    rounds_default :
        o.samples ≡ default_samples
        → (k fuel : ℕ) (t : Totals) → t.samples + k ≡ 60
        → k < fuel
        → Ends done k (rounds fl o sent fuel t)
    unfolding rounds
    rounds_default d k zero t e l = absurd (omega (arith, l))
    rounds_default d zero (suc fuel) t e l =
        let over : goes_on t.samples o.samples ≡ false = rw d (ground (arith, e)) in
        rw over (refl, refl)
    rounds_default d (suc k) (suc fuel) t e l =
        round-Ends done k fuel t (rw d (ground (arith, e)))
          (λ t' same. rounds_default d k fuel t' (omega (arith, same, e)) (omega (arith, l)))

    rounds_given :
        (s : String)
        → o.samples ≡ given s
        → (fuel : ℕ) (t : Totals) → Ends running fuel (rounds fl o sent fuel t)
    unfolding rounds
    rounds_given s g zero t = (refl, refl)
    rounds_given s g (suc fuel) t =
        round-Ends running fuel fuel t (rw g refl) (λ t' same. rounds_given s g fuel t')

    length-rows : (lines : List (Line F)) → length (map row lines) ≡ length lines
    length-rows [] = refl
    length-rows (line ∷ lines) = ap suc (length-rows lines)

    printed :
        (ending : Ending) (n fuel : ℕ)
        → Ends ending n (rounds fl o sent fuel no_totals)
        → ((get_metrics fl o sent fuel).1 ≡ ending)
          × (length (get_metrics fl o sent fuel).0 ≡ suc n)
    unfolding get_metrics
    printed ending n fuel (same, count) = (same, ap suc (length-rows _ ∙ count))

    -- Where every sample can be compared and is not empty: without the option --samples a run is done
    -- after 61 lines, the header and one for each of 60 samples; with it, whatever is given, a run is
    -- not done after any number of rounds, each of which prints a line.
    pub get_metrics_ends :
        (o.samples ≡ default_samples
          → (fuel : ℕ) → 60 < fuel
          → ((get_metrics fl o sent fuel).1 ≡ done) × (length (get_metrics fl o sent fuel).0 ≡ 61))
        × ((s : String)
            → o.samples ≡ given s
            → (fuel : ℕ)
            → ((get_metrics fl o sent fuel).1 ≡ running)
              × (length (get_metrics fl o sent fuel).0 ≡ suc fuel))
    get_metrics_ends = (
      λ d fuel l. printed done 60 fuel (rounds_default d 60 fuel no_totals refl l),
      λ s g fuel. printed running fuel fuel (rounds_given s g fuel no_totals),
    )

  -- An instance that answers with the object of a single tool ends the run at once, in a KeyError
  -- or, where there are patterns to ignore, in a TypeError: the header alone is printed.
  pub get_metrics-single :
      (d : JsonData) (fuel : ℕ)
      → (sent 0).0 ≡ received (some (single d))
      → (e : PyError) × (filter_single o.ignore_patterns ≡ raise e)
        × (get_metrics fl o sent (suc fuel) ≡ (header ∷ [], stopped e))
  unfolding get_metrics rounds compared get_mlabns_status filter_results
  get_metrics-single d fuel h =
      let (e, failed) = filter_single-raise o.ignore_patterns in
      (e, failed, rw (goes_on_zero o.samples, h, failed) refl)
