-- ===== src/Tests/Lists.antt =====
-- Runs of the lists of include/ec_list.h.
use mathlib.Core.Option
use cherry_ecat.Prelude.{
  Gets, true, u32_mod, ◌%◌, ◌↔◌, ◌≡◌, ◌==◌, refl, List, [], ◌∷◌, ℕ, some, arith, map, if◌then◌else◌,
}
use cherry_ecat.Lists.{Links, init}
use cherry_ecat.Lists.Ring.{Holds}
use cherry_ecat.Lists.Unlink.{init-Holds}
use cherry_ecat.Lists.Refine.{Call, run, run-Holds}
use cherry_ecat.Lists.Single
use cherry_ecat.Lists.Single.Facts.{Leads, reads_lem}
use cherry_ecat.Lists.Single.Changes.{put_before, changes-Leads}

abbrev no_links : Links
no_links = record { next = λ p. 0; prev = λ p. 0 }

abbrev calls : List Call
calls = Call.tail 5 ∷ Call.tail 6 ∷ Call.head 7 ∷ Call.out 5 ∷ Call.to_tail 7 ∷ []

forward : map (run 9 (init no_links 9) calls).next (9 ∷ 6 ∷ 7 ∷ 5 ∷ []) ≡ 6 ∷ 7 ∷ 9 ∷ 5 ∷ []
unfolding run init
forward = refl

run-Holds_example : Holds (run 9 (init no_links 9) calls) 9 (6 ∷ 7 ∷ [])
run-Holds_example =
    run-Holds 9 (init no_links 9) [] calls (refl, (refl, (refl, (refl, (refl, tt)))))
      (init-Holds no_links 9)

-- 9, 6, 7
abbrev three : ℕ → ℕ
three p = if p == 9 then 6 else if p == 6 then 7 else 0

inserted :
    Option.map (λ g. map g (9 ∷ 6 ∷ 5 ∷ 7 ∷ [])) (Single.insert 9 three 9 7 5)
    ≡ some (6 ∷ 5 ∷ 7 ∷ 0 ∷ [])
unfolding Single.insert
inserted = refl

changes-Leads_example :
    Leads (Single.add_head three 9 5) 9 (5 ∷ 6 ∷ 7 ∷ [])
    × Gets (λ g. Leads g 9 (6 ∷ 7 ∷ 5 ∷ [])) (Single.add_tail 4 three 9 5)
    × Gets (λ g. Leads g 9 (put_before 7 5 (6 ∷ 7 ∷ []))) (Single.insert 4 three 9 7 5)
    × Gets (λ g. Leads g 9 (7 ∷ [])) (Single.unlink 4 three 9 6)
changes-Leads_example =
    changes-Leads 4 three 9 5 6 7 (6 ∷ 7 ∷ []) (omega arith) refl refl refl refl
      (refl, (refl, (refl, tt))) (refl, refl, (refl, refl, refl))

reads_lem_example :
    (Single.len 3 three 9 ≡ some (2 % u32_mod))
    × (Single.tail 3 three 9 ≡ some 7)
    × ((Single.is_empty three 9 ≡ true) ↔ (◌≡◌ {A = List ℕ} (6 ∷ 7 ∷ []) []))
    × (Single.finds 3 three 9 7 ≡ some 0)
reads_lem_example =
    reads_lem 3 three 9 7 (6 ∷ 7 ∷ []) (omega arith) (refl, refl, (refl, refl, refl))
