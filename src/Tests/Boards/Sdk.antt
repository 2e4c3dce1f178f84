-- ===== src/Tests/Boards/Sdk.antt =====
-- A Pico whose I2C bus and UART both deliver the bytes of one script.
use picomesh.Base.{Bool, true, false, ℕ, suc, ◌≡◌, List, arith, ltb}
use picomesh.Base.{length, take, length-take}
use picomesh.PicoTransport.Sdk.{PicoSdk, IsLawful, pos}

abbrev pub same : Bool → Bool → Bool
same true b = b
same false true = false
same false false = true

-- The state counts the bytes read from the UART.
abbrev pub board : List ℕ → PicoSdk
board script = record {
  State = ℕ;
  I2c = Bool;
  i2c0 = false;
  i2c1 = true;
  same_i2c = same;
  i2c_set_slave_mode = λ s i address. s;
  irq_set_exclusive_handler = λ s index. s;
  irq_set_enabled = λ s index. s;
  set_intr_mask = λ s i. s;
  Uart = Unit;
  i2c_write_blocking = λ s i address bytes. (s, pos (length bytes));
  i2c_read_blocking =
      λ s i address quantity. (s, take quantity script, pos (length (take quantity script)));
  uart_write_blocking = λ s i bytes. s;
  uart_is_readable = λ s i. ltb s (length script);
  uart_getc = λ s i. (suc s, suc s);
}

pos-eq : (a b : ℕ) → pos a ≡ pos b → b ≡ a
pos-eq a b e = ground (arith, e)

pub board-IsLawful : (script : List ℕ) → IsLawful (board script)
board-IsLawful script = record {
  read_bound = λ s i address quantity. omega (arith, length-take quantity script);
  read_count = λ s i address quantity n e. pos-eq (length (take quantity script)) n e;
}
