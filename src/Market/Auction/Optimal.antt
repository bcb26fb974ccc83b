-- ===== src/Market/Auction/Optimal.antt =====
-- The price that compute_noii of luv_auction.hpp finds pairs as much volume as any price at all.
use fort.Base.{
  ℕ, zero, suc, refl, ◌*◌, ◌-◌, ◌^◌, ◌≤◌, ◌<◌, ◌≡◌, inl, inr, sym, ◌∙◌, Bool, true, not, ◌&&◌, ◌||◌,
  List, [], ◌∷◌, arith, ◌==◌, if◌then◌else◌, Bool-cases, ==_iff,
}
use fort.Base.Int.{
  ℤ, pos, ◌+ℤ◌, ◌≤ℤ◌, ◌<ℤ◌, leb_ℤ, eqb_ℤ, int64_max, +ℤ_parts, wrap64, wrap64-FitsInt64,
}
use fort.Market.Auction.{
  AuctionOrder, AuctionCrossEngine, Best, max_auction_orders, exists_price, collect_prices, sort,
  add_volume, volumes, min_ℤ, distance_ℤ, improve, best_of, snapshot_at, noii_from, compute_noii,
}
use fort.Market.Auction.Prices.{
  eqb_ℤ-eq, exists_price-append, exists_price-sort, no_price, List-cases, least_from, Greatest-of,
}

-- The orders that count as buying and as selling at a price.
abbrev buys_at : ℕ → ℤ → AuctionOrder → Bool
buys_at symbol p o =
    o.active && o.symbol_idx == symbol && o.side == 0 && (o.is_market || leb_ℤ p o.price)

abbrev sells_at : ℕ → ℤ → AuctionOrder → Bool
sells_at symbol p o =
    o.active && o.symbol_idx == symbol && not (o.side == 0) && (o.is_market || leb_ℤ o.price p)

-- 2048 orders of this quantity are within int64_t.
abbrev pub largest_qty : ℤ
largest_qty = pos (2 ^ 52 - 1)

module _ (orders : ℕ → AuctionOrder) (symbol : ℕ)
    (positive : (i : ℕ)
      → (orders i).active ≡ true
      → (pos 0 <ℤ (orders i).qty) × ((orders i).qty ≤ℤ largest_qty)) where
  -- The volumes over `n` orders are at most `n` times the largest quantity.
  abbrev Small : ℕ → ℤ → Type 0
  Small n v = (pos 0 ≤ℤ v) × (v ≤ℤ pos (n * (2 ^ 52 - 1)))

  exact :
      (n i : ℕ) (v : ℤ)
      → n < max_auction_orders
      → (orders i).active ≡ true
      → Small n v
      → (wrap64 (v +ℤ (orders i).qty) ≡ v +ℤ (orders i).qty) × Small (suc n) (v +ℤ (orders i).qty)
  exact n i v l on (low, high) =
      let (some_qty, small) = positive i on in
      let sum = +ℤ_parts v (orders i).qty in
      (
        wrap64-FitsInt64 _ (omega (arith, low, some_qty, sum), omega (arith, l, high, small, sum)),
        (omega (arith, low, some_qty, sum), omega (arith, high, small, sum)),
      )

  volumes_step :
      (n : ℕ) (p : ℤ)
      → let (b, s) = volumes n orders symbol p in
        let o = orders n in
        volumes (suc n) orders symbol p ≡ (
          if buys_at symbol p o then wrap64 (b +ℤ o.qty) else b,
          if sells_at symbol p o then wrap64 (s +ℤ o.qty) else s,
        )
  unfolding volumes add_volume
  volumes_step n p = ground arith

  Small-suc : (n : ℕ) (v : ℤ) → Small n v → Small (suc n) v
  Small-suc n v (low, high) = (low, omega (arith, high))

  volumes-Small :
      (n : ℕ) (p : ℤ)
      → n ≤ max_auction_orders
      → let (b, s) = volumes n orders symbol p in Small n b × Small n s
  unfolding volumes
  volumes-Small zero p l = ((omega arith, omega arith), (omega arith, omega arith))
  volumes-Small (suc n) p l =
      let (b, s) = volumes n orders symbol p in
      let (hb, hs) = volumes-Small n p (omega (arith, l)) in
      rw (volumes_step n p) (
        elim (Bool-cases (buys_at symbol p (orders n))) [
          | inl e ↦
              let (same, small) = exact n n b (omega (arith, l)) (ground (arith, e)) hb in
              rw (e, same) small
          | inr e ↦ rw e (Small-suc n b hb)
        ],
        elim (Bool-cases (sells_at symbol p (orders n))) [
          | inl e ↦
              let (same, small) = exact n n s (omega (arith, l)) (ground (arith, e)) hs in
              rw (e, same) small
          | inr e ↦ rw e (Small-suc n s hs)
        ],
      )

  -- Where no sum overflows, the volumes are the sums.
  volumes-suc :
      (n : ℕ) (p : ℤ)
      → n < max_auction_orders
      → let (b, s) = volumes n orders symbol p in
        let o = orders n in
        volumes (suc n) orders symbol p ≡ (
          if buys_at symbol p o then b +ℤ o.qty else b,
          if sells_at symbol p o then s +ℤ o.qty else s,
        )
  volumes-suc n p l =
      let (b, s) = volumes n orders symbol p in
      let (hb, hs) = volumes-Small n p (omega (arith, l)) in
      let o = orders n in
      let bought : (if buys_at symbol p o then wrap64 (b +ℤ o.qty) else b)
          ≡ (if buys_at symbol p o then b +ℤ o.qty else b) =
        elim (Bool-cases (buys_at symbol p o)) [
          | inl e ↦ let same = (exact n n b l (ground (arith, e)) hb).0 in rw (e, same) refl
          | inr e ↦ rw e refl
        ] in
      let sold : (if sells_at symbol p o then wrap64 (s +ℤ o.qty) else s)
          ≡ (if sells_at symbol p o then s +ℤ o.qty else s) =
        elim (Bool-cases (sells_at symbol p o)) [
          | inl e ↦ let same = (exact n n s l (ground (arith, e)) hs).0 in rw (e, same) refl
          | inr e ↦ rw e refl
        ] in
      volumes_step n p ∙ rw (bought, sold) refl

  volumes_nonneg :
      (p : ℤ)
      → let (b, s) = volumes max_auction_orders orders symbol p in (pos 0 ≤ℤ b) × (pos 0 ≤ℤ s)
  volumes_nonneg p = let (hb, hs) = volumes-Small max_auction_orders p (omega arith) in (hb.0, hs.0)

  -- If each order that buys at `p` buys at `q`, no more is bought at `p`.
  buy-le :
      (n : ℕ) (p q : ℤ)
      → n ≤ max_auction_orders
      → ((i : ℕ) → i < n → buys_at symbol p (orders i) ≡ true → buys_at symbol q (orders i) ≡ true)
      → (volumes n orders symbol p).0 ≤ℤ (volumes n orders symbol q).0
  unfolding volumes
  buy-le zero p q small h = omega arith
  buy-le (suc n) p q small h =
      let a = (volumes n orders symbol p).0 in
      let b = (volumes n orders symbol q).0 in
      let o = orders n in
      let ih = buy-le n p q (omega (arith, small)) (λ i l. h i (omega arith)) in
      rw (volumes-suc n p (omega (arith, small)), volumes-suc n q (omega (arith, small))) ground
        (arith, ih, h n, positive n, +ℤ_parts a o.qty, +ℤ_parts b o.qty)

  sell-le :
      (n : ℕ) (p q : ℤ)
      → n ≤ max_auction_orders
      → ((i : ℕ)
          → i < n
          → sells_at symbol p (orders i) ≡ true
          → sells_at symbol q (orders i) ≡ true)
      → (volumes n orders symbol p).1 ≤ℤ (volumes n orders symbol q).1
  unfolding volumes
  sell-le zero p q small h = omega arith
  sell-le (suc n) p q small h =
      let a = (volumes n orders symbol p).1 in
      let b = (volumes n orders symbol q).1 in
      let o = orders n in
      let ih = sell-le n p q (omega (arith, small)) (λ i l. h i (omega arith)) in
      rw (volumes-suc n p (omega (arith, small)), volumes-suc n q (omega (arith, small))) ground
        (arith, ih, h n, positive n, +ℤ_parts a o.qty, +ℤ_parts b o.qty)

  collect_prices-lists :
      (n i : ℕ)
      → i < n
      → ((orders i).active && (orders i).symbol_idx == symbol && not (orders i).is_market) ≡ true
      → exists_price (collect_prices n orders symbol) (orders i).price ≡ true
  unfolding collect_prices
  collect_prices-lists zero i l h = absurd (omega arith)
  collect_prices-lists (suc n) i l h =
      let ps = collect_prices n orders symbol in
      let q = (orders n).price in
      elim (Bool-cases (i == n)) [
        | inl e ↦
            let e' = (==_iff i n).0 e in
            rw e' (ground (arith, rw e' at h, exists_price-append ps q q))
        | inr e ↦ ground (
          arith,
          e,
          collect_prices-lists n i (ground (arith, e, l)) h,
          exists_price-append ps q (orders i).price,
        )
      ]

  abbrev at : ℤ → ℤ × ℤ
  at p = volumes max_auction_orders orders symbol p

  abbrev paired : ℤ → ℤ
  paired p = min_ℤ (at p).0 (at p).1

  abbrev prices : List ℤ
  prices = collect_prices max_auction_orders orders symbol

  -- The volume at any price is paired at a collected price as well.
  dominated :
      (q : ℤ) (ps : List ℤ) (p : ℤ)
      → prices ≡ q ∷ ps
      → (l : ℤ) × (exists_price prices l ≡ true) × (paired p ≤ℤ paired l)
  dominated q ps p e =
      let all = collect_prices-lists max_auction_orders in
      elim (least_from prices p) [
        | inl w ↦
            let b =
              buy-le max_auction_orders p w.l (omega arith)
                (λ i l h. ground (arith, h, all i l, w.least (orders i).price)) in
            let s =
              sell-le max_auction_orders p w.l (omega arith) (λ i l h. ground (arith, h, w.from)) in
            (w.l, w.listed, ground (arith, b, s))
        | inr below ↦
            let w = Greatest-of q ps in
            let listed : exists_price prices w.l ≡ true = rw e w.listed in
            let top : (x : ℤ) → exists_price prices x ≡ true → x ≤ℤ w.l =
              λ x h. w.greatest x (rw e at h) in
            let less = below w.l listed in
            let b =
              buy-le max_auction_orders p w.l (omega arith) (λ i l h. ground (arith, h, less)) in
            let s =
              sell-le max_auction_orders p w.l (omega arith)
                (λ i l h. ground (arith, h, all i l, less, top (orders i).price)) in
            (w.l, listed, ground (arith, b, s))
      ]

  -- What the search for the best price keeps.
  record IsBest (b : Best) : Type 0 where
    pub attained : b.max_paired ≤ℤ paired b.best_price

  improve-IsBest : (p : ℤ) (b : Best) → IsBest b → IsBest (improve at p b)
  unfolding improve
  improve-IsBest p b v = record { attained = ground (arith, v.attained) }

  improve-le :
      (p : ℤ) (b : Best)
      → (b.max_paired ≤ℤ (improve at p b).max_paired) × (paired p ≤ℤ (improve at p b).max_paired)
  unfolding improve
  improve-le p b = ground arith

  best_of-IsBest : (ps : List ℤ) (b : Best) → IsBest b → IsBest (best_of at ps b)
  unfolding best_of
  best_of-IsBest [] b v = v
  best_of-IsBest (p ∷ ps) b v = best_of-IsBest ps (improve at p b) (improve-IsBest p b v)

  best_of-grows : (ps : List ℤ) (b : Best) → b.max_paired ≤ℤ (best_of at ps b).max_paired
  unfolding best_of
  best_of-grows [] b = omega arith
  best_of-grows (p ∷ ps) b = omega (arith, (improve-le p b).0, best_of-grows ps (improve at p b))

  best_of-le :
      (ps : List ℤ) (b : Best) (p : ℤ)
      → exists_price ps p ≡ true
      → paired p ≤ℤ (best_of at ps b).max_paired
  unfolding best_of exists_price
  best_of-le [] b p h = cc
  best_of-le (q ∷ ps) b p h = elim (Bool-cases (eqb_ℤ q p)) [
    | inl e ↦
        let same = eqb_ℤ-eq q p e in
        rw (sym same) (omega (arith, (improve-le q b).1, best_of-grows ps (improve at q b)))
    | inr e ↦ best_of-le ps (improve at q b) p (ground (arith, h, e))
  ]

  search_paired :
      (q : ℤ) (ps : List ℤ) (b : Best) (p : ℤ)
      → prices ≡ q ∷ ps
      → IsBest b
      → let r = best_of at (sort (q ∷ ps)) b in paired p ≤ℤ paired r.best_price
  search_paired q ps b p e v =
      let (l, listed, less) = dominated q ps p e in
      let listed' : exists_price (sort (q ∷ ps)) l ≡ true =
        exists_price-sort (q ∷ ps) l ∙ (rw e at listed) in
      let found = best_of-le (sort (q ∷ ps)) b l listed' in
      let kept = (best_of-IsBest (sort (q ∷ ps)) b v).attained in omega (arith, less, found, kept)

-- In an auction whose active orders have positive quantities of at most 2^52 - 1, so that no volume leaves
-- int64_t, and which has a limit order for the symbol: the snapshot of `compute_noii` is for the symbol; its
-- paired quantity is what its indicative price pairs, and its imbalance the distance of the two volumes there;
-- and no price pairs more, whether an order has it or not.
pub compute_noii-maximal :
    (a : AuctionCrossEngine) (symbol : ℕ) (reference_price p : ℤ) (i : ℕ)
    → ((j : ℕ)
        → (a.orders j).active ≡ true
        → (pos 0 <ℤ (a.orders j).qty) × ((a.orders j).qty ≤ℤ largest_qty))
    → i < max_auction_orders
    → ((a.orders i).active && (a.orders i).symbol_idx == symbol && not (a.orders i).is_market)
      ≡ true
    → let noii = compute_noii a symbol reference_price in
      let (best_b, best_s) =
        volumes max_auction_orders a.orders symbol noii.indicative_match_price in
      let (b, s) = volumes max_auction_orders a.orders symbol p in
      (noii.symbol_idx ≡ symbol)
      × (noii.paired_qty ≡ min_ℤ best_b best_s)
      × (noii.imbalance_qty ≡ distance_ℤ best_b best_s)
      × (min_ℤ b s ≤ℤ noii.paired_qty)
unfolding compute_noii noii_from snapshot_at
compute_noii-maximal a symbol reference_price p i positive small limit =
    elim (List-cases (collect_prices max_auction_orders a.orders symbol)) [
      | inl e ↦
          let w = collect_prices-lists a.orders symbol positive max_auction_orders i small limit in
          absurd (no_price (a.orders i).price (rw e at w))
      | inr (q, ps, e) ↦
          let start : Best = record {
            best_price = reference_price;
            max_paired = pos 0;
            min_imbalance = int64_max;
          } in
          let (hb, hs) = volumes_nonneg a.orders symbol positive reference_price in
          let v : IsBest a.orders symbol positive start = record {
            attained = ground (arith, hb, hs);
          } in
          let w = search_paired a.orders symbol positive q ps start p e v in
          rw e (refl, refl, refl, w)
    ]
