-- ===== src/Agent/System/Traffic.antt =====
-- No traffic of a node is lost, whichever reports fail.
use emorelay.Base.{ℕ, ◌+◌, ◌≤◌, ◌<◌, Bool, true, List, [], ◌∷◌, ◌++◌, ◌≡◌, arith}
use emorelay.Base.Signed.{pos_part}
use emorelay.Base.Words.{mod63}
use emorelay.Agent.System.{Inner, drain, restore_traffic, report_node_stats}
use emorelay.Agent.Stats.{RpcEnd, answered, not_committed, answer_lost}

-- A tick of the report: the clock, the totals then, and how the call ends.
pub record Tick : Type 0 where
  pub clock_ok : Bool
  pub rx_now : ℕ
  pub tx_now : ℕ
  pub rpc : RpcEnd

-- What is committed by a report that counts as failed, and will be reported again.
abbrev pub again : RpcEnd → ℕ → ℕ
again answer_lost n = n
again _ n = 0

-- The bytes that the panel commits, received and sent.
abbrev pub committed : Inner → List Tick → ℕ × ℕ
committed g [] = (0, 0)
committed g (t ∷ ts) =
    let (g', sample) = report_node_stats g t.clock_ok t.rx_now t.tx_now t.rpc in
    let (rx, tx) = committed g' ts in
    (pos_part sample.rx_bytes_delta + rx, pos_part sample.tx_bytes_delta + tx)

-- Of those, the bytes of the reports whose answer was lost.
abbrev pub repeated : Inner → List Tick → ℕ × ℕ
repeated g [] = (0, 0)
repeated g (t ∷ ts) =
    let (g', sample) = report_node_stats g t.clock_ok t.rx_now t.tx_now t.rpc in
    let (rx, tx) = repeated g' ts in
    (
      again t.rpc (pos_part sample.rx_bytes_delta) + rx,
      again t.rpc (pos_part sample.tx_bytes_delta) + tx,
    )

-- The totals only grow, and fit in an i64.
abbrev pub Growing : ℕ → ℕ → List Tick → Type 0
Growing rx tx [] = Unit
Growing rx tx (t ∷ ts) =
    (rx ≤ t.rx_now)
    × (tx ≤ t.tx_now)
    × (t.rx_now < mod63)
    × (t.tx_now < mod63)
    × Growing t.rx_now t.tx_now ts

-- One report: what is committed, but for what will be reported again, is what the totals that are
-- remembered move by.
report_node_stats-moves :
    (g : Inner) (clock_ok : Bool) (rx_now tx_now : ℕ) (rpc : RpcEnd)
    → g.primed ≡ true
    → g.last_rx_total ≤ rx_now
    → g.last_tx_total ≤ tx_now
    → rx_now < mod63
    → tx_now < mod63
    → let (h, sample) = report_node_stats g clock_ok rx_now tx_now rpc in
      (g.last_rx_total + pos_part sample.rx_bytes_delta
        ≡ h.last_rx_total + again rpc (pos_part sample.rx_bytes_delta))
      × (g.last_tx_total + pos_part sample.tx_bytes_delta
          ≡ h.last_tx_total + again rpc (pos_part sample.tx_bytes_delta))
      × (h.last_rx_total ≤ rx_now)
      × (h.last_tx_total ≤ tx_now)
      × (h.primed ≡ true)
      × (clock_ok ≡ true → rpc ≡ answered → (h.last_rx_total ≡ rx_now) × (h.last_tx_total ≡ tx_now))
unfolding report_node_stats drain restore_traffic
report_node_stats-moves g clock_ok rx_now tx_now answered p a b c d = ground arith
report_node_stats-moves g clock_ok rx_now tx_now not_committed p a b c d = ground arith
report_node_stats-moves g clock_ok rx_now tx_now answer_lost p a b c d = ground arith

Growing-lower :
    {rx tx rx' tx' : ℕ} (ts : List Tick) (last : Tick)
    → rx ≤ rx'
    → tx ≤ tx'
    → Growing rx' tx' (ts ++ (last ∷ []))
    → Growing rx tx (ts ++ (last ∷ []))
Growing-lower [] last x y (a, b, c, d, r) = (omega (arith, x, a), omega (arith, y, b), c, d, r)
Growing-lower (t ∷ ts) last x y (a, b, c, d, r) =
    (omega (arith, x, a), omega (arith, y, b), c, d, r)

-- From a sampler that has its base, however the calls of the reports end and whenever the clock is wrong:
-- once a report is answered, the bytes that the panel has committed are exactly what the totals have
-- grown by since the base, and once more those of the reports whose answer was lost; as long as the
-- totals only grow and fit in an i64.
pub committed-repeated :
    (g : Inner) (ts : List Tick) (last : Tick)
    → g.primed ≡ true
    → Growing g.last_rx_total g.last_tx_total (ts ++ (last ∷ []))
    → last.clock_ok ≡ true
    → last.rpc ≡ answered
    → let (rx, tx) = committed g (ts ++ (last ∷ [])) in
      let (more_rx, more_tx) = repeated g (ts ++ (last ∷ [])) in
      (g.last_rx_total + rx ≡ last.rx_now + more_rx)
      × (g.last_tx_total + tx ≡ last.tx_now + more_tx)
committed-repeated g [] last p (a, b, c, d, r) clock rpc =
    let (m, n, x, y, q, z) =
      report_node_stats-moves g last.clock_ok last.rx_now last.tx_now last.rpc p a b c d in
    let (i, j) = z clock rpc in (omega (arith, m, i), omega (arith, n, j))
committed-repeated g (t ∷ ts) last p (a, b, c, d, r) clock rpc =
    let h = (report_node_stats g t.clock_ok t.rx_now t.tx_now t.rpc).0 in
    let (m, n, x, y, q, z) =
      report_node_stats-moves g t.clock_ok t.rx_now t.tx_now t.rpc p a b c d in
    let (i, j) = committed-repeated h ts last q (Growing-lower ts last x y r) clock rpc in
    (omega (arith, m, i), omega (arith, n, j))
