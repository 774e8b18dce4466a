-- ===== src/LogFile/Range.antt =====
-- `filter1` on a file of readable lines whose times grow.
use event_loop.LogFile.{Sought, found_at, LfsCtx, filter_end, filter1}
use event_loop.LogFile.Lines.{Line, bytes_of, At, last_start}
use event_loop.LogFile.Search.{IsLog, IsFirst, Finds}
use event_loop.LogFile.Sorted.{last_time}
use event_loop.Prelude.{
  ltb, leb, ◌==◌, if◌then◌else◌, ltb→lt, leb→le, Bool-cases, ltb-ge, leb-lt, ==-lt, length, ℕ, suc,
  ◌%◌, ◌^◌, ◌≤◌, ◌<◌, ◌≡◌, refl, ◌∙◌, subst, inl, inr, true, Option, some, List, ◌∷◌, arith,
}
use event_loop.Prelude.Int.{pos}

-- What `init_lfs` knows of the file.
abbrev pub log_ctx : Line → List Line → LfsCtx
log_ctx l ls = record {
  foff = 0;
  loff = last_start (l ∷ ls);
  ft = l.time;
  lt = last_time l ls;
  file_size = length (bytes_of (l ∷ ls));
  st = 0;
  et = 0;
  soff = pos 0;
  eoff = pos 0;
}

-- The lines from `s` up to `e` are those of the times from `st` to `et`.
abbrev pub Between : (At : ℕ → ℕ → Type 0) → (st et s e : ℕ) → Type 0
Between At st et s e =
    (o m : ℕ)
    → At o m
    → ((s ≤ o) × (o < e) → (st ≤ m) × (m ≤ et)) × ((st ≤ m) × (m ≤ et) → (s ≤ o) × (o < e))

-- The start of the range: no line before it is in time, all others are.
abbrev pub From : (At : ℕ → ℕ → Type 0) → (st s : ℕ) → Type 0
From At st s = (o m : ℕ) → At o m → (s ≤ o → st ≤ m) × (st ≤ m → s ≤ o)

module _ {near : ℕ → Option (ℕ × ℕ)} {At : ℕ → ℕ → Type 0} {last : ℕ}
    (log : IsLog near At last) where
  open log use {unique, ordered}

  pub IsFirst-From : (t o m : ℕ) → IsFirst At t o m → From At t o
  IsFirst-From t o m (h, late, first) o' m' k =
      (λ le. ground (arith, unique o m m' h, ordered o m o' m' h k), λ le. first o' m' k le)

  pub at_most : (o m o' m' : ℕ) → At o m → At o' m' → o ≤ o' → m ≤ m'
  at_most o m o' m' h k le = elim (Bool-cases (ltb o o')) [
    | inl less ↦ omega (arith, ordered o m o' m' h k (ground arith))
    | inr same ↦
        let e : o ≡ o' = ground arith in omega (arith, unique o' m m' (subst (λ x. At x m) e h) k)
  ]

  -- The end of the range: the lines before it are those not behind `et`.
  module _ (seek_to : ℕ → Sought) (ctx : LfsCtx) (et : ℕ)
      (finds : (t : ℕ) → ctx.ft ≤ t → t ≤ ctx.lt → Finds At t (seek_to t)) where
    pub filter_end-last :
        et ≡ ctx.lt → filter_end seek_to ctx et ≡ found_at (pos ctx.file_size) (some ctx.lt)
    unfolding filter_end
    filter_end-last e =
        let end : leb ctx.lt et ≡ true = ground arith in
        let same : (ctx.lt == ctx.lt) ≡ true = ground arith in
        rw (filter_end, ltb-ge ctx.lt et (omega (arith, e)), end, same) refl

    -- The first line not before `et` is at `et` or behind it.
    filter_end-met :
        (o m : ℕ)
        → et < ctx.lt
        → ctx.lt < 2 ^ 64
        → m < ctx.lt
        → seek_to et ≡ found_at (pos o) (some m)
        → filter_end seek_to ctx et
          ≡ (if m == et then seek_to (suc et) else found_at (pos o) (some m))
    unfolding filter_end
    filter_end-met o m late small inner e =
        let same : suc et % 2 ^ 64 ≡ suc et = omega (arith, late, small) in
        rw
          (
            filter_end,
            ltb-ge ctx.lt et (omega (arith, late)),
            leb-lt et ctx.lt late,
            e,
            ==-lt m ctx.lt inner,
            same,
          )
          refl

    pub filter_end-inner :
        ctx.ft ≤ et
        → et < ctx.lt
        → ctx.lt < 2 ^ 64
        → (o m : ℕ) × At o m × (et ≤ m) × (m < ctx.lt)
        → (e : ℕ) × (met : Option ℕ) × (filter_end seek_to ctx et ≡ found_at (pos e) met)
          × From At (suc et) e
    filter_end-inner early late small (o', m', h', le', lt') =
        let (o, m, e, (h, le, first)) = finds et early (omega (arith, late)) in
        let inner : m < ctx.lt = omega (arith, at_most o m o' m' h h' (first o' m' h' le'), lt') in
        elim (Bool-cases (m == et)) [
          | inl hit ↦
              let (o'', m'', e'', is) =
                finds (suc et) (omega (arith, early)) (omega (arith, late)) in
              (
                o'',
                some m'',
                filter_end-met o m late small inner e ∙ rw hit e'',
                IsFirst-From (suc et) o'' m'' is,
              )
          | inr miss ↦ (
            o,
            some m,
            filter_end-met o m late small inner e ∙ rw miss refl,
            IsFirst-From (suc et) o m
                (h, ground arith, λ x y k after. first x y k (omega (arith, after))),
          )
        ]

    -- The start of the range.
    filter_start :
        (st : ℕ)
        → At ctx.foff ctx.ft
        → ctx.foff ≡ 0
        → st ≤ ctx.lt
        → (s : ℕ) × (met : Option ℕ) × ((if ltb st ctx.ft
              then found_at (pos ctx.foff) (some ctx.ft)
              else seek_to st)
            ≡ found_at (pos s) met)
          × From At st s
    filter_start st h zero_off late = elim (Bool-cases (ltb st ctx.ft)) [
      | inl early ↦ (
        ctx.foff,
        some ctx.ft,
        rw early refl,
        λ o m k. (
          λ le. omega (arith, at_most ctx.foff ctx.ft o m h k le, ltb→lt st ctx.ft early),
          λ le. omega (arith, zero_off),
        ),
      )
      | inr inner ↦
          let (o, m, e, is) = finds st (ground arith) late in
          (o, some m, rw inner e, IsFirst-From st o m is)
    ]

    pub filter1-Between :
        (st e : ℕ) (met : Option ℕ)
        → At ctx.foff ctx.ft
        → ctx.foff ≡ 0
        → st ≤ ctx.lt
        → filter_end seek_to ctx et ≡ found_at (pos e) met
        → From At (suc et) e
        → (s : ℕ) × (filter1 seek_to ctx st et
            ≡ some (record ctx { st = st; et = et; soff = pos s; eoff = pos e }))
          × Between At st et s e
    unfolding filter1
    filter1-Between st e met h zero_off late ending from =
        let (s, met', starting, from') = filter_start st h zero_off late in
        (
          s,
          rw (filter1, starting, ending) refl,
          λ o m k. (
            λ in_range. (
              (from' o m k).0 in_range.0,
              elim (Bool-cases (leb m et)) [
                | inl le ↦ leb→le m et le
                | inr gt ↦ absurd (omega (arith, in_range.1, (from o m k).1 (ground arith)))
              ],
            ),
            λ in_time. (
              (from' o m k).1 in_time.0,
              elim (Bool-cases (ltb o e)) [
                | inl less ↦ ltb→lt o e less
                | inr more ↦ absurd (omega (arith, in_time.1, (from o m k).0 (ground arith)))
              ],
            ),
          ),
        )
