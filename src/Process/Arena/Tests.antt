-- ===== src/Process/Arena/Tests.antt =====
-- An arena of three slots, of which the middle one is empty.
use kernel_r.Prelude.{
  ℕ, zero, suc, has, true, get_elem?, ◌≡◌, refl, Option, none, some, [], ◌∷◌, Run, ok, ◌>>=◌,
}
use kernel_r.Process.Arena.{empty, occupied, ThreadArena, new, insert, remove}
use kernel_r.Process.Arena.Free.{IsValid, chain_end, chain_slot}
use kernel_r.Process.Arena.Live.{Inserted, Removed, insert-Inserted, remove-Removed}

abbrev holed : ThreadArena ℕ
holed = record { slots = occupied 10 ∷ empty none ∷ occupied 30 ∷ []; free_head = some 1 }

holed-IsValid : IsValid holed (1 ∷ [])
holed-IsValid = record {
  chain = chain_slot 1 refl chain_end;
  distinct = (refl, tt);
  complete = λ x next e. only_one x next e;
}
  where
    only_one :
        (x : ℕ) (next : Option ℕ)
        → get_elem? holed.slots x ≡ some (empty next)
        → has x (1 ∷ []) ≡ true
    only_one zero next e = cc
    only_one (suc zero) next e = refl
    only_one (suc (suc zero)) next e = cc
    only_one (suc (suc (suc x))) next e = cc

insert-Inserted_example : Inserted holed 20 (insert holed 20)
insert-Inserted_example = insert-Inserted holed 20 holed-IsValid

remove-Removed_example : Removed holed 2 (remove holed 2)
remove-Removed_example = remove-Removed holed 2 holed-IsValid

-- The slot of a removed thread is the first to be used again.
reused : Run ℕ
reused = do
  (_, a1) ← insert {T = ℕ} new 10
  (_, a2) ← insert {T = ℕ} a1 20
  (_, a3) ← remove {T = ℕ} a2 0
  (id, _) ← insert {T = ℕ} a3 30
  ok id

reused_first : reused ≡ ok 0
unfolding reused insert remove new
reused_first = refl
