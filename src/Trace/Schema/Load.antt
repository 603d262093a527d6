-- ===== src/Trace/Schema/Load.antt =====
-- src/expertflow/trace/io.py: the stream of the records of a file, and where it reports a failure.
use expertflow.Base.{
  get_elem?, take, suc, ok-injective, ℕ, ◌+◌, String, Option, some, List, [], ◌∷◌, length, All,
  Result, ok, err, Failure, ◌≡◌, refl, arith, >>=-eq-ok, length,
}
use mathlib.Core.Path.{subst}
use native.Mathlib.Nat.{add-zero}
use expertflow.Trace.Event.{ℤ, Float, RouterTraceEvent}
use expertflow.Trace.Json.{Json}
use expertflow.Trace.Schema.{parse_router_event, load_from}
use expertflow.Trace.Schema.Valid.{IsValid, parse_router_event-IsValid}

module _ (to_float : ℤ → Result Float) (loads : String → Option Json) where
  -- A file that loads has one event for each line, every one of them valid.
  pub load_from-IsValid :
      (n : ℕ) (lines : List String) {es : List RouterTraceEvent}
      → load_from to_float loads n lines ≡ ok es
      → (length es ≡ length lines) × All IsValid es
  unfolding load_from
  load_from-IsValid n [] h =
      subst (λ es. (length es ≡ 0) × All IsValid es) (ok-injective h) (refl, tt)
  load_from-IsValid n (line ∷ lines) h =
      let (e, first, h₁) = >>=-eq-ok (parse_router_event to_float loads line n) _ h in
      let (es, rest, h₂) = >>=-eq-ok (load_from to_float loads (n + 1) lines) _ h₁ in
      let (count, valid) = load_from-IsValid (n + 1) lines rest in
      subst (λ es. (length es ≡ suc (length lines)) × All IsValid es) (ok-injective h₂)
        (omega arith, (parse_router_event-IsValid to_float loads line n first, valid))

  -- `f` is the failure of the `k`th line, and the lines before it load.
  abbrev pub FailsAt : ℕ → List String → Failure → Type 0
  FailsAt n lines f =
      (k : ℕ) × (line : String) × (get_elem? lines k ≡ some line)
      × (parse_router_event to_float loads line (n + k) ≡ err f)
      × ((es : List RouterTraceEvent) × (load_from to_float loads n (take k lines) ≡ ok es))

  first_line :
      (n : ℕ) (line : String) (lines : List String) (f : Failure) (r : Result RouterTraceEvent)
      → parse_router_event to_float loads line n ≡ r
      → load_from to_float loads n (line ∷ lines) ≡ err f
      → (load_from to_float loads (n + 1) lines ≡ err f → FailsAt (n + 1) lines f)
      → FailsAt n (line ∷ lines) f
  unfolding load_from
  first_line n line lines f (err g) p h later =
      (0, line, refl, rw add-zero (ground arith), ([], refl))
  first_line n line lines f (ok e) p h later =
      let (k, l, found, failed, loaded) = later (ground arith) in
      let (es, before) = loaded in
      (
        suc k,
        l,
        found,
        subst (λ i. parse_router_event to_float loads l i ≡ err f) (omega arith) failed,
        (e ∷ es, ground arith),
      )

  -- A file that fails to load fails with the error of one of its lines, which the call for that
  -- line gave at its record number, and all lines before it load.
  pub load_from-err :
      (n : ℕ) (lines : List String) (f : Failure)
      → load_from to_float loads n lines ≡ err f
      → FailsAt n lines f
  unfolding load_from
  load_from-err n [] f h = absurd (cc)
  load_from-err n (line ∷ lines) f h =
      first_line n line lines f (parse_router_event to_float loads line n) refl h
        (load_from-err (n + 1) lines f)
