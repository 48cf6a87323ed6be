-- ===== src/Filters/Limits/RedisBucket/Tokens.antt =====
-- What a client can take from a bucket in a Redis server, where calls come one after another.
use go_relax.Base.{
  ℕ, suc, ◌+◌, ◌-◌, ◌/◌, ◌%◌, ◌≤◌, ◌<◌, true, false, Option, none, some, List, [], ◌∷◌, ◌++◌, map,
  All, ◌≡◌, refl, ◌==◌, if◌then◌else◌, ℤ, pos, pos_part, ◌+ℤ◌, ◌-ℤ◌, ltz, leb, ltb, ◌&&◌, ap, inl,
  inr, arith, Bool-cases, ◌∙◌,
}
use go_relax.Text.{Text, text_eq}
use go_relax.Text.Laws.{text_eq_refl}
use go_relax.Filters.Limits.MemBucket.{wait}
use go_relax.Filters.Limits.RedisBucket.{
  min_ℤ, delta, Redis, RedisBucket, Command, multi, exec, discard, ttl, get, set, set_existing,
  expire, decr_by, read_bucket, is_missing, send_or_panic, update_bucket, fill_open, fill, take,
  consume_filled, consume,
}

-- What a command does to the tokens of a key: SET and EXPIRE leave the value that they set, or the old
-- one, and DECRBY takes away.
abbrev pub after : Command → Text → ℤ → ℤ
after (set k v e) key old = if text_eq k key then v else old
after (set_existing k v e) key old = if text_eq k key then v else old
after (decr_by k n) key old = if text_eq k key then old -ℤ pos n else old
after multi key old = old
after exec key old = old
after discard key old = old
after (ttl k) key old = old
after (get k) key old = old
after (expire k e) key old = old

-- Where it does so: an expiry is at least a second, and SET with XX wants a key that is there.
abbrev pub Applies : (Text → ℤ) → Command → Type 0
Applies left_of (set k v e) = 0 < e
Applies left_of (set_existing k v e) = (0 < e) × (is_missing (left_of k) ≡ false)
Applies left_of (expire k e) = 0 < e
Applies left_of _ = Unit

-- The commands that only read, and what they read.
abbrev pub IsRead : Command → Type 0
IsRead (ttl k) = Unit
IsRead (get k) = Unit
IsRead _ = ⊥

abbrev pub value_of : (Text → ℤ) → (Text → ℤ) → Command → ℤ
value_of left_of tokens_of (ttl k) = left_of k
value_of left_of tokens_of (get k) = tokens_of k
value_of left_of tokens_of _ = pos 0

-- What a server that answers does, as Redis and redigo document it: `tokens_of` and `left_of` are the
-- value and the time to live of a key, when what was sent is executed, and `queue_of` is the queue of
-- the connection's transaction, if it is in one. MULTI opens a transaction; a command within it is put
-- at the end of the queue; EXEC replies with the values of the commands of the queue, in their order,
-- here for those that only read, and ends the transaction. DECRBY outside of one replies with the value
-- that it leaves. `scan` reads two values in the order of the reply. Time does not pass within a call.
pub record IsLive (r : Redis) : Type 0 where
  pub tokens_of : Text → r.S → ℤ
  pub left_of : Text → r.S → ℤ
  pub queue_of : r.S → Option (List Command)
  pub read_as : r.Reply → ℤ
  pub queue_of-open : (s : r.S) → queue_of (r.open_conn s) ≡ none
  pub tokens_of-open : (key : Text) (s : r.S) → tokens_of key (r.open_conn s) ≡ tokens_of key s
  pub tokens_of-close : (key : Text) (s : r.S) → tokens_of key (r.close_conn s) ≡ tokens_of key s
  pub send_succeeds : (c : Command) (s : r.S) → (r.send c s).1 ≡ false
  pub tokens_of-send :
      (c : Command) (key : Text) (s : r.S)
      → queue_of s ≡ none
      → Applies (λ k. left_of k s) c
      → tokens_of key (r.send c s).0 ≡ after c key (tokens_of key s)
  pub tokens_of-decr_by :
      (k : Text) (n : ℕ) (key : Text) (s : r.S)
      → queue_of s ≡ none
      → tokens_of key (r.call (decr_by k n) s).0 ≡ after (decr_by k n) key (tokens_of key s)
  pub decr_by_replies :
      (k : Text) (n : ℕ) (s : r.S)
      → queue_of s ≡ none
      → (reply : r.Reply) × ((r.call (decr_by k n) s).1 ≡ some reply)
        × (r.int reply ≡ some (tokens_of k s -ℤ pos n))
  pub multi_opens :
      (s : r.S)
      → queue_of s ≡ none
      → (queue_of (r.send multi s).0 ≡ some [])
        × ((key : Text) → left_of key (r.send multi s).0 ≡ left_of key s)
  pub send_queues :
      (c : Command) (cs : List Command) (s : r.S)
      → queue_of s ≡ some cs
      → (queue_of (r.send c s).0 ≡ some (cs ++ c ∷ []))
        × ((key : Text) → tokens_of key (r.send c s).0 ≡ tokens_of key s)
        × ((key : Text) → left_of key (r.send c s).0 ≡ left_of key s)
  pub exec_closes :
      (cs : List Command) (s : r.S)
      → queue_of s ≡ some cs
      → All IsRead cs
      → (queue_of (r.call exec s).0 ≡ none)
        × ((key : Text) → tokens_of key (r.call exec s).0 ≡ tokens_of key s)
        × ((key : Text) → left_of key (r.call exec s).0 ≡ left_of key s)
  pub exec_replies :
      (cs : List Command) (s : r.S)
      → queue_of s ≡ some cs
      → All IsRead cs
      → (reply : r.Reply) × (vs : List r.Reply) × ((r.call exec s).1 ≡ some reply)
        × (r.values reply ≡ some vs)
        × (map read_as vs ≡ map (value_of (λ k. left_of k s) (λ k. tokens_of k s)) cs)
  pub scan_two :
      (vs : List r.Reply) (x y : ℤ) → map read_as vs ≡ x ∷ y ∷ [] → r.scan vs ≡ some (x, y)

module _ (r : Redis) (live : IsLive r) where
  open live use {tokens_of, left_of, queue_of}

  -- The transaction of `fill` replies with the time to live of the key and then its tokens, and it
  -- changes neither.
  read_bucket_lem :
      (key : Text) (s : r.S)
      → queue_of s ≡ none
      → (vs : List r.Reply) × ((read_bucket r key s).1 ≡ some vs)
        × (r.scan vs ≡ some (left_of key (read_bucket r key s).0, tokens_of key s))
        × (tokens_of key (read_bucket r key s).0 ≡ tokens_of key s)
        × (queue_of (read_bucket r key s).0 ≡ none)
  unfolding read_bucket
  read_bucket_lem key s closed =
      let s1 = (r.send multi s).0 in
      let s2 = (r.send (ttl key) s1).0 in
      let s3 = (r.send (get key) s2).0 in
      let (q1, left1) = live.multi_opens s closed in
      let (q2, tokens2, left2) = live.send_queues (ttl key) [] s1 q1 in
      let (q3, tokens3, left3) = live.send_queues (get key) (ttl key ∷ []) s2 q2 in
      let reads : All IsRead (ttl key ∷ get key ∷ []) = (tt, (tt, tt)) in
      let (closed', tokens4, left4) = live.exec_closes (ttl key ∷ get key ∷ []) s3 q3 reads in
      let (reply, vs, replied, listed, read) =
        live.exec_replies (ttl key ∷ get key ∷ []) s3 q3 reads in
      let tokens : tokens_of key s3 ≡ tokens_of key s =
        tokens3 key ∙ tokens2 key ∙ live.tokens_of-send multi key s closed tt in
      (
        vs,
        rw replied listed,
        live.scan_two vs (left_of key s3) (tokens_of key s3) read ∙ rw (tokens, left4 key) refl,
        tokens4 key ∙ tokens,
        closed',
      )

-- `wait` panics for all numbers of tokens, or for none.
wait_total : (rate a x m : ℕ) → wait rate a ≡ some x → (y : ℕ) × (wait rate m ≡ some y)
unfolding wait
wait_total rate a x m h = elim (Bool-cases (rate == 0)) [
  | inl zero_rate ↦ absurd (ground arith)
  | inr positive ↦ (m / rate + (m % rate) / 1000000000, ground arith)
]

-- A bucket of at most `size` tokens that had `t` was filled up to `f`.
pub record IsFilled (size t f : ℕ) : Type 0 where
  pub grown : t ≤ f
  pub within : f ≤ size

-- What is left of `f` tokens where `n` are asked for.
abbrev pub left_after : ℕ → ℕ → ℕ
left_after f n = if leb n f then f - n else f

module _ (r : Redis) (live : IsLive r) (b : RedisBucket) (w : ℕ)
    (waits : wait b.rate b.size ≡ some (suc w)) where
  open live use {tokens_of, left_of, queue_of}

  -- A state and the tokens that were returned with it.
  abbrev pub Holds : Text → ℕ → r.S × Option ℤ → Type 0
  Holds key t out =
      (f : ℕ) × IsFilled b.size t f × (out.1 ≡ some (pos f)) × (tokens_of key out.0 ≡ pos f)

  send_or_panic-Holds :
      (key : Text) (t f : ℕ) (c : Command) (s : r.S)
      → IsFilled b.size t f
      → queue_of s ≡ none
      → Applies (λ k. left_of k s) c
      → after c key (tokens_of key s) ≡ pos f
      → Holds key t (send_or_panic r c (pos f) s)
  unfolding send_or_panic
  send_or_panic-Holds key t f c s filled closed applies e =
      (f, filled, rw (live.send_succeeds c s) refl, live.tokens_of-send c key s closed applies ∙ e)

  abbrev topped_up : ℕ → ℕ → ℕ
  topped_up t d = if ltb b.size (t + d) then b.size else t + d

  min_ℤ-topped_up : (t d : ℕ) → min_ℤ (pos b.size) (pos t +ℤ pos d) ≡ pos (topped_up t d)
  min_ℤ-topped_up t d = ground arith

  update_bucket-Holds :
      (key : Text) (t : ℕ) (s : r.S)
      → queue_of s ≡ none
      → tokens_of key s ≡ pos t
      → t ≤ b.size
      → Holds key t (update_bucket r b key (suc w) (left_of key s) (pos t) s)
  unfolding update_bucket
  update_bucket-Holds key t s closed has within =
      let left = left_of key s in
      let since : ℤ = pos (suc w) -ℤ left in
      let d : ℕ = delta b.rate (pos_part since) in
      let self = text_eq_refl key in
      elim (Bool-cases (is_missing left)) [
        | inl missing ↦ rw missing (
            send_or_panic-Holds key t b.size (set key (pos b.size) (suc w)) s
              (record { grown = within; within = omega arith }) closed (omega arith) (rw self refl))
        | inr there ↦ rw there (elim (Bool-cases (ltz (pos t) (pos b.size) && ltz (pos 60) since)) [
          | inl more ↦
              rw (more, min_ℤ-topped_up t d)
                (send_or_panic-Holds key t (topped_up t d)
                  (set_existing key (pos (topped_up t d)) (suc w)) s (ground arith) closed
                  (omega arith, there) (rw self refl))
          | inr enough ↦ rw enough (
              send_or_panic-Holds key t t (expire key (suc w)) s
                (record { grown = omega arith; within = within }) closed (omega arith) has)
        ])
      ]

  -- `fill` tops up the bucket, and returns the tokens that are in it.
  pub fill-Holds :
      (key : Text) (t : ℕ) (s : r.S)
      → tokens_of key s ≡ pos t
      → t ≤ b.size
      → Holds key t (fill r b key s)
  unfolding fill fill_open read_bucket
  fill-Holds key t s has within =
      let s1 = r.open_conn s in
      let (vs, replied, scanned, tokens, closed) =
        read_bucket_lem r live key s1 (live.queue_of-open s) in
      let s2 = (read_bucket r key s1).0 in
      let opened : tokens_of key s1 ≡ pos t = live.tokens_of-open key s ∙ has in
      let known : r.scan vs ≡ some (left_of key s2, pos t) =
        scanned ∙ ap (λ v. some (left_of key s2, v)) opened in
      let (f, filled, out, left) = update_bucket-Holds key t s2 closed (tokens ∙ opened) within in
      rw (replied, known, waits) (f, filled, out, live.tokens_of-close key _ ∙ left)

  -- DECRBY leaves and returns the difference, which can be below zero.
  pub take-tokens_of :
      (key : Text) (n : ℕ) (s : r.S)
      → ((take r key n s).1 ≡ tokens_of key s -ℤ pos n)
        × (tokens_of key (take r key n s).0 ≡ tokens_of key s -ℤ pos n)
  unfolding take
  take-tokens_of key n s =
      let s1 = r.open_conn s in
      let opened = live.tokens_of-open key s in
      let (reply, replied, read) = live.decr_by_replies key n s1 (live.queue_of-open s) in
      (
        rw (replied, read, opened) refl,
        live.tokens_of-close key _
            ∙ live.tokens_of-decr_by key n key s1 (live.queue_of-open s)
            ∙ rw (text_eq_refl key, opened) refl,
      )

  consume_filled-Holds :
      (key : Text) (n f : ℕ) (s : r.S)
      → tokens_of key s ≡ pos f
      → (time : ℕ) × ((consume_filled r b key n (s, some (pos f))).1
          ≡ some (pos (left_after f n), time, leb n f))
        × (tokens_of key (consume_filled r b key n (s, some (pos f))).0 ≡ pos (left_after f n))
  unfolding consume_filled
  consume_filled-Holds key n f s has = elim (Bool-cases (leb n f)) [
    | inl enough ↦
        let (left, kept) = take-tokens_of key n s in
        let minus : tokens_of key s -ℤ pos n ≡ pos (f - n) = rw has (ground arith) in
        let plenty : ltz (pos f) (pos n) ≡ false = ground arith in
        (suc w, rw (plenty, enough, left, minus, waits) refl, rw (plenty, enough) (kept ∙ minus))
    | inr short ↦
        let (time, known) = wait_total b.rate b.size (suc w) (pos_part (pos n -ℤ pos f)) waits in
        let missing : ltz (pos f) (pos n) ≡ true = ground arith in
        (time, rw (missing, short, known) refl, rw (missing, short) has)
  ]

  -- A call of `Consume` on a bucket with `t` tokens, at most the capacity, first fills it up to some `f`
  -- that is no less than `t` and no more than the capacity. It then takes `n` tokens exactly if they are
  -- there, and the tokens that it returns are those that it leaves in the bucket. The time of expiry is
  -- at least a second.
  pub consume-tokens_of :
      (key : Text) (n t : ℕ) (s : r.S)
      → tokens_of key s ≡ pos t
      → t ≤ b.size
      → (f : ℕ) × (time : ℕ) × IsFilled b.size t f
        × ((consume r b key n s).1 ≡ some (pos (left_after f n), time, leb n f))
        × (tokens_of key (consume r b key n s).0 ≡ pos (left_after f n))
  unfolding consume
  consume-tokens_of key n t s has within =
      let (f, filled, out, kept) = fill-Holds key t s has within in
      let s1 = (fill r b key s).0 in
      let same : fill r b key s ≡ (s1, some (pos f)) = ap (λ o. (s1, o)) out in
      let (time, replied, left) = consume_filled-Holds key n f s1 kept in
      (
        f,
        time,
        filled,
        ap (λ (o : r.S × Option ℤ). (consume_filled r b key n o).1) same ∙ replied,
        ap (λ (o : r.S × Option ℤ). tokens_of key (consume_filled r b key n o).0) same ∙ left,
      )
