-- ===== src/Findings/Recent.antt =====
-- The windows of the finding engine hold exactly the recent times.
use neta_agent.Prelude.{
  ℕ, ◌≤◌, ◌≡◌, refl, ap, ◌∙◌, sym, Bool, List, [], ◌∷◌, ◌++◌, arith, leb, keep,
}
use neta_agent.Prelude.Dict.{append-middle, append-nil}
use neta_agent.Findings.Window.{cutoff, drop_below, trim_before, recorded}

-- The window after some times are recorded in turn.
unfoldable pub windowed : ℕ → List ℕ → List ℕ → List ℕ
windowed window [] values = values
windowed window (t ∷ times) values = windowed window times (recorded values t window)

-- Times that do not decrease, from a first one on.
abbrev pub IsRising : ℕ → List ℕ → Type 0
IsRising b [] = Unit
IsRising b (t ∷ times) = (b ≤ t) × IsRising t times

abbrev pub latest : ℕ → List ℕ → ℕ
latest b [] = b
latest b (t ∷ times) = latest t times

-- The times that are not older than the window, at a moment.
abbrev pub recent : ℕ → ℕ → List ℕ → List ℕ
recent now window times = keep (leb (cutoff now window)) times

IsRising-weaken : (a b : ℕ) (times : List ℕ) → a ≤ b → IsRising b times → IsRising a times
IsRising-weaken a b [] h r = tt
IsRising-weaken a b (t ∷ times) h r = (omega (arith, h, r.0), r.1)

keep-IsRising :
    (p : ℕ → Bool) (b : ℕ) (times : List ℕ) → IsRising b times → IsRising b (keep p times)
keep-IsRising p b [] r = tt
keep-IsRising p b (t ∷ times) r =
    ground (arith, keep-IsRising p t times, IsRising-weaken b t (keep p times))

keep-above :
    (least b : ℕ) (times : List ℕ) → least ≤ b → IsRising b times → keep (leb least) times ≡ times
keep-above least b [] h r = refl
keep-above least b (t ∷ times) h r = ground (arith, keep-above least t times)

drop_below-keep :
    (least b : ℕ) (times : List ℕ)
    → IsRising b times
    → drop_below least times ≡ keep (leb least) times
drop_below-keep least b [] r = refl
drop_below-keep least b (t ∷ times) r =
    ground (arith, drop_below-keep least t times, keep-above least t times)

keep-keep :
    (a b : ℕ) (times : List ℕ) → a ≤ b → keep (leb b) (keep (leb a) times) ≡ keep (leb b) times
keep-keep a b [] h = refl
keep-keep a b (t ∷ times) h = ground (arith, keep-keep a b times)

keep-append :
    (least t : ℕ) (times : List ℕ)
    → least ≤ t
    → keep (leb least) (times ++ t ∷ []) ≡ keep (leb least) times ++ t ∷ []
keep-append least t [] h = ground arith
keep-append least t (s ∷ times) h = ground (arith, keep-append least t times)

IsRising-append :
    (b t : ℕ) (times : List ℕ)
    → IsRising b times
    → latest b times ≤ t
    → IsRising b (times ++ t ∷ [])
IsRising-append b t [] r h = (h, tt)
IsRising-append b t (s ∷ times) r h = (r.0, IsRising-append s t times r.1 h)

pub latest-append : (b t : ℕ) (times : List ℕ) → latest b (times ++ t ∷ []) ≡ t
latest-append b t [] = refl
latest-append b t (s ∷ times) = latest-append s t times

cutoff_mono : (a b window : ℕ) → a ≤ b → cutoff a window ≤ cutoff b window
cutoff_mono a b window h = ground arith

cutoff-le : (now window : ℕ) → cutoff now window ≤ now
cutoff-le now window = ground arith

-- A time that is not before the others keeps the window exact.
recorded-recent :
    (window t : ℕ) (times : List ℕ)
    → IsRising 0 times
    → latest 0 times ≤ t
    → recorded (recent (latest 0 times) window times) t window ≡ recent t window (times ++ t ∷ [])
unfolding recorded trim_before
recorded-recent window t times r h =
    ap (λ values. values ++ t ∷ [])
      (drop_below-keep (cutoff t window) 0 _ (keep-IsRising _ 0 times r)
        ∙ keep-keep (cutoff (latest 0 times) window) (cutoff t window) times
            (cutoff_mono (latest 0 times) t window h))
    ∙ sym (keep-append (cutoff t window) t times (cutoff-le t window))

windowed-from :
    (window : ℕ) (later times : List ℕ)
    → IsRising 0 times
    → IsRising (latest 0 times) later
    → windowed window later (recent (latest 0 times) window times)
      ≡ recent (latest 0 (times ++ later)) window (times ++ later)
unfolding windowed
windowed-from window [] times r s = rw (append-nil times) refl
windowed-from window (t ∷ later) times r s =
    let next : latest 0 (times ++ t ∷ []) ≡ t = latest-append 0 t times in
    let rest =
      windowed-from window later (times ++ t ∷ []) (IsRising-append 0 t times r s.0)
        (rw next s.1) in
    ap (windowed window later) (
      recorded-recent window t times r s.0 ∙ ap (λ l. recent l window (times ++ t ∷ [])) (sym next))
    ∙ rest
    ∙ ap (λ ts. recent (latest 0 ts) window ts) (sym (append-middle times t later))

-- Where times that do not decrease are recorded from an empty window on, the window holds, in order,
-- those that are at most its width before the last one.
pub windowed-recent :
    (window : ℕ) (times : List ℕ)
    → IsRising 0 times
    → windowed window times [] ≡ recent (latest 0 times) window times
windowed-recent window times r = windowed-from window times [] tt r
