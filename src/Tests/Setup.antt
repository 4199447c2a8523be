-- ===== src/Tests/Setup.antt =====
-- A small book and the definitions that a run computes with.
use orderbook_engine.Base.{ℕ, none, update}
use orderbook_engine.Base.Int.{pos, ◌+ℤ◌, ◌-ℤ◌, to_unsigned, to_signed32}
use orderbook_engine.Base.Word.{not64, shl64, countr_zero, bit_width, countl_zero}
use orderbook_engine.Bitmap
use orderbook_engine.Book.Match.{
  unlink_head, release, retire_head, take_fill, fill_head, fill_round, after_level, fill_loop,
  is_breached, leave_level, match_loop, match_side, would_cross, is_within, absorb_loop, walk_limit,
  can_fully_fill,
}
use orderbook_engine.Book.Rest.{
  occupy_level, best_idx, set_best_idx, clear_bit, vacate_level, enter_level, insert_resting,
  remove_from_book, remove_order, cancel_at, cancel, shrink_order, reduce_at, reduce,
}
use orderbook_engine.Book.State.{
  Book, Config, pow2_loop, next_pow2, new_with_table, new, price_to_idx, price_offset, idx_to_price,
  in_range, level, set_level, best_price, best_bid, best_ask, total_at, open_orders, find,
  next_level, top_loop, top_n,
}
use orderbook_engine.Book.Submit.{
  settle, execute, post_only_check, fok_check, range_check, duplicate_check, submit, resubmit,
  modify_at, modify, Request,
}
use orderbook_engine.IdMap
use orderbook_engine.Orders.{Heap, set_prev, set_next, set_quantity}
use orderbook_engine.Orders.Fifo.{push_back, unlink}
use orderbook_engine.Orders.Slab
use orderbook_engine.Types.{Side, OrderType, TimeInForce, Quantity, OrderId}

unfoldable pub program : Unit {0}
unfolding update ◌+ℤ◌ ◌-ℤ◌ to_unsigned to_signed32 not64 shl64 countr_zero bit_width countl_zero
    Bitmap.new Bitmap.set Bitmap.clear Bitmap.test Bitmap.scan_up Bitmap.find_next_set
    Bitmap.scan_down Bitmap.mask_up_to Bitmap.find_prev_set unlink_head release retire_head
    take_fill fill_head fill_round after_level fill_loop is_breached leave_level match_loop
    match_side would_cross is_within absorb_loop walk_limit can_fully_fill occupy_level best_idx
    set_best_idx clear_bit vacate_level enter_level insert_resting remove_from_book remove_order
    cancel_at cancel shrink_order reduce_at reduce pow2_loop next_pow2 new_with_table new
    price_to_idx price_offset idx_to_price in_range level set_level best_price best_bid best_ask
    total_at open_orders find next_level top_loop top_n settle execute post_only_check fok_check
    range_check duplicate_check submit resubmit modify_at modify IdMap.hash IdMap.round_up_pow2
    IdMap.new IdMap.ideal_slot IdMap.next_slot IdMap.find_loop IdMap.find IdMap.insert_loop
    IdMap.insert IdMap.locate_loop IdMap.displacement IdMap.shift_loop IdMap.erase_at IdMap.erase
    set_prev set_next set_quantity push_back unlink Slab.new Slab.allocate Slab.deallocate
program = tt

-- What the storage holds before it is first written.
abbrev pub raw : Heap
raw i = record {
  prev = none;
  next = none;
  order_id = 0;
  quantity = 0;
  price = pos 0;
  level_idx = 0;
  side = Side.buy;
}

abbrev pub config : Config
config = record { base_price = pos 100; num_levels = 100; max_orders = 8 }

unfoldable pub start : Book
unfolding program
start = new_with_table raw config 16

abbrev pub limit_order : OrderId → Side → TimeInForce → ℕ → Quantity → Request
limit_order id side tif price qty = record {
  id = id;
  side = side;
  type = OrderType.limit;
  tif = tif;
  price = pos price;
  qty = qty;
  ts = 0;
}
