-- ===== src/Format.antt =====
-- Texts that `fmt.Sprintf` puts together: lists of pieces. How Go prints a float64 is left open.
use saga_market_order.Prelude.{String}

-- Verbatim text, or a float64 with so many decimals, `%.2f` or `%.8f`.
pub data Piece (W : Type 0) : Type 0 where
  verbatim : String → Piece W
  two_decimals eight_decimals : W → Piece W
