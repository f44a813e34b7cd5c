-- ===== src/Monitor/Deadlock.antt =====
-- When the watch over the running threads signals the process.
use zerosum.Base.{ℕ, zero, suc, ◌≡◌, Bool, true, ◌&&◌, List, [], ◌∷◌, length, take, leb, arith}
use zerosum.Base.Int.{ℤ, pos}
use zerosum.Monitor.{watch}

-- The counter behind a history of samples, of which the latest stands first.
unfoldable pub quiet_after : ℤ → List ℕ → ℕ
unfolding watch
quiet_after d [] = 0
quiet_after d (running ∷ older) = (watch true d running (quiet_after d older)).0

abbrev pub all_quiet : List ℕ → Bool
all_quiet [] = true
all_quiet (running ∷ history) = leb running 1 && all_quiet history

quiet_after-leb :
    (d : ℤ) (e : ℕ) (history : List ℕ)
    → leb e (quiet_after d history) ≡ (leb e (length history) && all_quiet (take e history))
unfolding quiet_after watch
quiet_after-leb d zero history = ground arith
quiet_after-leb d (suc e) [] = ground arith
quiet_after-leb d (suc e) (running ∷ older) = ground (arith, quiet_after-leb d e older)

-- With detection on and a duration that is not negative, over any history of samples from the start
-- (the latest first): the process is signalled at a sample exactly if there have been as many
-- samples as the duration says and each of the last so many saw at most one running thread.
pub watch_signals :
    (d running : ℕ) (older : List ℕ)
    → (watch true (pos d) running (quiet_after (pos d) older)).1
      ≡ (leb d (length (running ∷ older)) && all_quiet (take d (running ∷ older)))
unfolding watch quiet_after
watch_signals d running older = ground (arith, quiet_after-leb (pos d) d (running ∷ older))
