-- ===== src/Wiring/Mocks.antt =====
-- cmd/main.go: `MockPriceService` and `MockTradeWorker`.
use saga_market_order.Prelude.{String, Option, some, ◌≡◌, refl, ◌==◌, ◌&&◌, if◌then◌else◌, arith}
use saga_market_order.Float.{Float}
use saga_market_order.Saga.World.{SwapRequest}
use saga_market_order.Saga.Swap.{SwapResponse, Answer, swapped}

-- The constants 100000.0, 4000.0, 1.0, 0.5 and 0.02.
pub record Constants (W : Type 0) : Type 0 where
  pub hundred_thousand : W
  pub four_thousand : W
  pub one : W
  pub half : W
  pub two_hundredths : W

module _ {W : Type 0} where
  -- `GetMarketPrice`, which never fails.
  unfoldable pub get_market_price : Constants W → String → String → Option W
  get_market_price c from to =
      if from == "USDT" && to == "BTC"
      then some c.hundred_thousand
      else if from == "USDT" && to == "ETH"
      then some c.four_thousand
      else some c.one

  -- The `price` of `ExecuteSwap`.
  unfoldable pub swap_price : Constants W → SwapRequest W → W
  swap_price c req =
      if req.from_currency == "USDT" && req.to_currency == "BTC"
      then c.hundred_thousand
      else if req.from_currency == "USDT" && req.to_currency == "ETH"
      then c.four_thousand
      else c.one

module _ {W : Type 0} ⦃f : Float W⦄ where
  open f use {div}

  -- `ExecuteSwap`, which never fails.
  unfoldable pub execute_swap : Constants W → SwapRequest W → Answer W
  unfolding swap_price
  execute_swap c req = swapped record {
    transaction_hash = "0xabc123def456789...";
    to_amount = div req.from_amount (swap_price c req);
    executed_price = swap_price c req;
    fees = c.half;
    slippage = c.two_hundredths;
  }

  -- The mocks agree: for every request of a swap, the price service has a price for its currencies,
  -- and the worker executes the swap at this price and for the amount that STEP 1 quotes at it.
  pub mocks_agree :
      (c : Constants W) (req : SwapRequest W)
      → (price : W) × (resp : SwapResponse W) × (get_market_price c req.from_currency
            req.to_currency
          ≡ some price)
        × (execute_swap c req ≡ swapped resp)
        × (resp.executed_price ≡ price)
        × (resp.to_amount ≡ div req.from_amount price)
  unfolding execute_swap swap_price get_market_price
  mocks_agree c req = (swap_price c req, _, ground arith, refl, refl, refl)
