-- ===== src/Tests/Parts.antt =====
-- The bitmap, the queue of a level and the slab on small inputs.
use orderbook_engine.Base.{◌<◌, refl, arith, [], ◌∷◌}
use orderbook_engine.Bitmap
use orderbook_engine.Bitmap.{Bitmap, find_next_set, find_prev_set, set, clear, test}
use orderbook_engine.Bitmap.Bit.{IsWords, new-IsWords, set-IsWords}
use orderbook_engine.Bitmap.Scan.{IsNext, find_next_set_lem}
use orderbook_engine.Bitmap.ScanDown.{IsPrev, find_prev_set_lem}
use orderbook_engine.Orders.{Heap}
use orderbook_engine.Orders.Fifo.{Fifo, empty_fifo, push_back, unlink}
use orderbook_engine.Orders.Fifo.Links.{IsFifo, Relinks}
use orderbook_engine.Orders.Fifo.Push.{push_back_lem}
use orderbook_engine.Orders.Fifo.Unlink.{unlink_lem}
use orderbook_engine.Orders.Slab
use orderbook_engine.Orders.Slab.{Slab, allocate, deallocate}
use orderbook_engine.Orders.Slab.FreeList.{HasFree, new-HasFree, allocate-HasFree}
use orderbook_engine.Tests.Setup.{raw}

-- Two words with the bits 5 and 100 set.
abbrev bits : Bitmap
bits = set (set (Bitmap.new 128) 5) 100

bits-IsWords : IsWords bits
bits-IsWords =
    set-IsWords (set (Bitmap.new 128) 5) 100 (set-IsWords (Bitmap.new 128) 5 (new-IsWords 128))

find_next_set_example : IsNext bits 6 (find_next_set bits 6)
find_next_set_example = find_next_set_lem bits bits-IsWords 6

find_prev_set_example : IsPrev bits 99 (find_prev_set bits 99)
find_prev_set_example = find_prev_set_lem bits bits-IsWords 99

-- The queues that `push_back` makes of the orders 4, 7 and 2.
abbrev queue₁ : Heap × Fifo
queue₁ = push_back raw empty_fifo 4

abbrev queue₂ : Heap × Fifo
queue₂ = push_back queue₁.0 queue₁.1 7

abbrev queue₃ : Heap × Fifo
queue₃ = push_back queue₂.0 queue₂.1 2

queue₁-IsFifo : IsFifo queue₁.0 queue₁.1 (4 ∷ [])
queue₁-IsFifo = (push_back_lem raw empty_fifo 4 [] (refl, refl) tt refl).0

queue₂-IsFifo : IsFifo queue₂.0 queue₂.1 (4 ∷ 7 ∷ [])
queue₂-IsFifo = (push_back_lem queue₁.0 queue₁.1 7 (4 ∷ []) queue₁-IsFifo (refl, tt) refl).0

push_back_example :
    IsFifo queue₃.0 queue₃.1 (4 ∷ 7 ∷ 2 ∷ []) × Relinks (4 ∷ 7 ∷ 2 ∷ []) queue₂.0 queue₃.0
push_back_example =
    push_back_lem queue₂.0 queue₂.1 2 (4 ∷ 7 ∷ []) queue₂-IsFifo (refl, (refl, tt)) refl

unlink_example :
    IsFifo (unlink queue₂.0 queue₂.1 4).0 (unlink queue₂.0 queue₂.1 4).1 (7 ∷ [])
    × Relinks (7 ∷ []) queue₂.0 (unlink queue₂.0 queue₂.1 4).0
unlink_example = unlink_lem queue₂.0 queue₂.1 4 [] (7 ∷ []) queue₂-IsFifo (refl, (refl, tt))

-- The slab of three slots with slot 0 handed out.
abbrev used : Slab
used = (allocate (Slab.new raw 3)).1

used-HasFree : HasFree used (1 ∷ 2 ∷ [])
used-HasFree =
    let (_, free, _) =
      allocate-HasFree (Slab.new raw 3) 0 (1 ∷ 2 ∷ []) (new-HasFree raw 3 (omega arith)) in
    free

capacity_lt : 0 < used.capacity
unfolding Slab.new allocate
capacity_lt = omega arith

room : 2 < used.capacity
unfolding Slab.new allocate
room = omega arith
