-- ===== src/Mm/Slab/Tests.antt =====
-- The slab allocator with a page at 4096 for the class of 1024 bytes.
use kernel_r.Prelude.{◌≡◌, refl, some, [], ok, store, arith}
use kernel_r.Mm.Slab.{SlabAllocator, list_index, alloc, free, populate_cache, search_sizes}
use kernel_r.Mm.Slab.Classes.{ClassOf, list_index-ClassOf}
use kernel_r.Mm.Slab.Lists.{SlabLists, IsSlab, Taken, alloc-Taken, Returned, free-Returned}
use kernel_r.Mm.Slab.Populate.{page_rest, populate_cache-IsSlab}

abbrev fresh : SlabAllocator
fresh = record { list_heads = λ c. 0; next = λ p. 0 }

abbrev no_lists : SlabLists
no_lists = λ c. []

list_index-ClassOf_example : ClassOf 1000 (list_index 1000)
list_index-ClassOf_example = list_index-ClassOf 1000

populated :
    (s' : SlabAllocator) × (populate_cache fresh 7 4096 ≡ ok s')
    × IsSlab s' (store no_lists 7 (page_rest 4096 1024))
populated =
    populate_cache-IsSlab fresh no_lists 7 1024 4096 (λ c h. refl) refl (omega arith)
      (λ c q h i. absurd (ground arith))

populate_cache-IsSlab_example :
    (s' : SlabAllocator) × (populate_cache fresh 7 4096 ≡ ok s')
    × IsSlab s' (store no_lists 7 (page_rest 4096 1024))
populate_cache-IsSlab_example =
    populate_cache-IsSlab fresh no_lists 7 1024 4096 (λ c h. refl) refl (omega arith)
      (λ c q h i. absurd (ground arith))

alloc-Taken_example :
    Taken populated.0
      (store no_lists 7 (page_rest 4096 1024))
      (list_index 1000)
      (alloc populated.0 1000).0
      (alloc populated.0 1000).1
alloc-Taken_example =
    alloc-Taken populated.0 (store no_lists 7 (page_rest 4096 1024)) 1000 populated.2

free-Returned_example : Returned fresh no_lists 4096 (list_index 1000) (free fresh 4096 1000)
free-Returned_example =
    free-Returned fresh no_lists 4096 1000 (λ c h. refl) (omega arith) (λ c h. refl)

-- 1000 bytes are served by the class of 1024.
class_1000 : list_index 1000 ≡ some 7
unfolding list_index search_sizes
class_1000 = refl
