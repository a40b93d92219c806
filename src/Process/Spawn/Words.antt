-- ===== src/Process/Spawn/Words.antt =====
-- Words written to memory one after the other are read back.
use kernel_r.Prelude.{
  ℕ, zero, suc, ◌+◌, ◌*◌, ◌<◌, ◌≤◌, ◌≡◌, refl, ◌∙◌, ap₂, List, [], ◌∷◌, store, store_self, store_ne,
  length, arith,
}
use kernel_r.Process.Spawn.{write_words}

abbrev pub read_words : (ℕ → ℕ) → ℕ → ℕ → List ℕ
read_words mem a zero = []
read_words mem a (suc n) = mem a ∷ read_words mem (a + 8) n

pub write_words_below :
    (mem : ℕ → ℕ) (a q : ℕ) (ws : List ℕ) → q < a → write_words mem a ws q ≡ mem q
write_words_below mem a q [] h = refl
write_words_below mem a q (w ∷ ws) h =
    write_words_below (store mem a w) (a + 8) q ws (omega (arith, h))
    ∙ store_ne mem a q w (omega (arith, h))

pub write_words_above :
    (mem : ℕ → ℕ) (a q : ℕ) (ws : List ℕ) → a + 8 * length ws ≤ q → write_words mem a ws q ≡ mem q
write_words_above mem a q [] h = refl
write_words_above mem a q (w ∷ ws) h =
    write_words_above (store mem a w) (a + 8) q ws (omega (arith, h))
    ∙ store_ne mem a q w (omega (arith, h))

pub read-write_words :
    (mem : ℕ → ℕ) (a : ℕ) (ws : List ℕ) → read_words (write_words mem a ws) a (length ws) ≡ ws
read-write_words mem a [] = refl
read-write_words mem a (w ∷ ws) =
    ap₂ ◌∷◌ (write_words_below (store mem a w) (a + 8) a ws (omega arith) ∙ store_self mem a w)
      (read-write_words (store mem a w) (a + 8) ws)
