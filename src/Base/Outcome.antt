-- ===== src/Base/Outcome.antt =====
-- What a call that may raise returns.
pub data Result (E A : Type 0) : Type 0 where
  ok : A → Result E A
  err : E → Result E A
