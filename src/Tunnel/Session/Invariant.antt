-- ===== src/Tunnel/Session/Invariant.antt =====
-- What holds of a session between completions: who has returned, what is written and what is due.
use msg.Prelude.{
  ℕ, ◌+◌, ◌*◌, ◌≡◌, refl, sym, ap, ◌∙◌, ◌⊎◌, inl, inr, Bool, true, false, [], ◌++◌, length,
  append-nil, ◌==◌, if◌then◌else◌, arith,
}
use msg.Bytes.{ByteVector, u64}
use msg.Tunnel.Stream.{stream}
use msg.Tunnel.Session.{Reader, reading, writing, flushing, finished, Half}

-- 1 for a coroutine that has returned.
abbrev pub done : Reader → ℕ
done finished = 1
done reading = 0
done (writing bs) = 0
done (flushing bs) = 0

-- What has been written to the socket, by writes that ended well and by one that threw.
abbrev pub on_wire : Half → ByteVector
on_wire h = h.written ++ h.cut

-- By where the coroutine is: what of the chain's output is written.
abbrev pub IsOn : Bool → Half → Reader → Type 0
IsOn closed h reading = (h.eof ≡ false) × ((h.produced ≡ h.written) × (h.cut ≡ []))
IsOn closed h (writing bs) =
    (h.eof ≡ false) × ((h.produced ≡ h.written ++ stream bs) × (h.cut ≡ []))
IsOn closed h (flushing bs) = ⊥
IsOn closed h finished =
    ((h.eof ≡ true) × ((h.produced ≡ h.written) × (h.cut ≡ [])))
    ⊎ ((closed ≡ true)
        × ((h.eof ≡ false) × ((rest : ByteVector) × (h.produced ≡ on_wire h ++ rest))))

-- One side's view of a session; `Ready r` is the view just before the coroutine's place becomes `r`.
pub record Ready (r : Reader) (own peer : Half) (closed : Bool) (count closes : ℕ) : Type 0 where
  pub own_on : IsOn closed own r
  pub own_bytes : own.bytes ≡ u64 (length own.written)
  pub peer_on : IsOn closed peer peer.reader
  pub peer_bytes : peer.bytes ≡ u64 (length peer.written)
  pub both : own.eof ≡ true → peer.eof ≡ true → closed ≡ true
  pub counted : count ≡ done peer.reader
  pub logged : closes ≡ 0

pub record Sound (own peer : Half) (closed : Bool) (count closes : ℕ) : Type 0 where
  pub own_on : IsOn closed own own.reader
  pub own_bytes : own.bytes ≡ u64 (length own.written)
  pub peer_on : IsOn closed peer peer.reader
  pub peer_bytes : peer.bytes ≡ u64 (length peer.written)
  pub both : own.eof ≡ true → peer.eof ≡ true → closed ≡ true
  pub counted : count ≡ done own.reader + done peer.reader
  pub logged : closes ≡ done own.reader * done peer.reader

-- With no write cut short, what ended well is on the wire.
uncut :
    (h : Half) (rest : ByteVector)
    → h.produced ≡ h.written ++ rest
    → h.cut ≡ []
    → h.produced ≡ on_wire h ++ rest
uncut h rest e none_cut =
    e ∙ ap (λ w. w ++ rest) (sym (append-nil h.written) ∙ ap (◌++◌ h.written) (sym none_cut))

-- Closing the sockets keeps what holds of a coroutine that goes on.
pub close-IsOn : (closed : Bool) (h : Half) (r : Reader) → IsOn closed h r → IsOn true h r
close-IsOn c h reading o = o
close-IsOn c h (writing bs) o = o
close-IsOn c h (flushing bs) o = o
close-IsOn c h finished (inl o) = inl o
close-IsOn c h finished (inr (e, o)) = inr (refl, o)

-- A coroutine may return at any point once the sockets are closed.
pub stop-IsOn : (closed : Bool) (h : Half) (r : Reader) → IsOn closed h r → IsOn true h finished
stop-IsOn c h reading o =
    inr (refl, (o.0, ([], uncut h [] (o.1.0 ∙ sym (append-nil h.written)) o.1.1)))
stop-IsOn c h (writing bs) o = inr (refl, (o.0, (stream bs, uncut h (stream bs) o.1.0 o.1.1)))
stop-IsOn c h (flushing bs) o = absurd o
stop-IsOn c h finished o = close-IsOn c h finished o

pub close-Ready :
    (r : Reader) (own peer : Half) (closed : Bool) (count closes : ℕ)
    → Ready r own peer closed count closes
    → Ready finished own peer true count closes
close-Ready r own peer closed count closes v = record {
  own_on = stop-IsOn closed own r v.own_on;
  own_bytes = v.own_bytes;
  peer_on = close-IsOn closed peer peer.reader v.peer_on;
  peer_bytes = v.peer_bytes;
  both = λ _ _. refl;
  counted = v.counted;
  logged = v.logged;
}

-- The view of a coroutine that has not returned.
pub ready :
    (own peer : Half) (closed : Bool) (count closes : ℕ)
    → done own.reader ≡ 0
    → Sound own peer closed count closes
    → Ready own.reader own peer closed count closes
ready own peer closed count closes h v = record {
  own_on = v.own_on;
  own_bytes = v.own_bytes;
  peer_on = v.peer_on;
  peer_bytes = v.peer_bytes;
  both = v.both;
  counted = omega (arith, v.counted, h);
  logged = let n = done peer.reader in v.logged ∙ rw h (let e : 0 * n ≡ 0 = omega arith in e);
}

last_one :
    (r : Reader) (closes : ℕ)
    → closes ≡ 0
    → (if (done r + 1) == 2 then closes + 1 else closes) ≡ 1 * done r
last_one reading closes e = e
last_one (writing bs) closes e = e
last_one (flushing bs) closes e = e
last_one finished closes e = omega (arith, e)

pub finish-Sound :
    (own peer : Half) (closed : Bool) (count closes : ℕ)
    → Ready finished own peer closed count closes
    → Sound
        (record own { reader = finished })
        peer
        closed
        (count + 1)
        (if (count + 1) == 2 then closes + 1 else closes)
finish-Sound own peer closed count closes v = record {
  own_on = v.own_on;
  own_bytes = v.own_bytes;
  peer_on = v.peer_on;
  peer_bytes = v.peer_bytes;
  both = v.both;
  counted = omega (arith, v.counted);
  logged = rw v.counted (last_one peer.reader closes v.logged);
}

pub wait-Sound :
    (r : Reader) (own peer : Half) (closed : Bool) (count closes : ℕ)
    → done r ≡ 0
    → Ready r own peer closed count closes
    → Sound (record own { reader = r }) peer closed count closes
wait-Sound r own peer closed count closes h v = record {
  own_on = v.own_on;
  own_bytes = v.own_bytes;
  peer_on = v.peer_on;
  peer_bytes = v.peer_bytes;
  both = v.both;
  counted = omega (arith, v.counted, h);
  logged = let n = done peer.reader in v.logged ∙ rw h (let e : 0 ≡ 0 * n = omega arith in e);
}

-- The same view just before another place.
pub turn :
    (r r' : Reader) (own peer : Half) (closed : Bool) (count closes : ℕ)
    → IsOn closed own r'
    → Ready r own peer closed count closes
    → Ready r' own peer closed count closes
turn r r' own peer closed count closes o v = record {
  own_on = o;
  own_bytes = v.own_bytes;
  peer_on = v.peer_on;
  peer_bytes = v.peer_bytes;
  both = v.both;
  counted = v.counted;
  logged = v.logged;
}

-- What is on the wire is a prefix of what is due, and all of it behind the end of the file. Only a
-- closed session has a write that was cut short.
pub split_output :
    (closed : Bool) (h : Half) (r : Reader)
    → IsOn closed h r
    → ((rest : ByteVector) × (h.produced ≡ on_wire h ++ rest))
      × ((h.eof ≡ true → (h.produced ≡ h.written) × (h.cut ≡ []))
          × ((h.cut ≡ []) ⊎ (closed ≡ true)))
split_output c h reading o =
    (([], uncut h [] (o.1.0 ∙ sym (append-nil h.written)) o.1.1), (λ e. absurd (cc), inl o.1.1))
split_output c h (writing bs) o =
    ((stream bs, uncut h (stream bs) o.1.0 o.1.1), (λ e. absurd (cc), inl o.1.1))
split_output c h (flushing bs) o = absurd o
split_output c h finished (inl o) =
    (([], uncut h [] (o.1.0 ∙ sym (append-nil h.written)) o.1.1), (λ e. o.1, inl o.1.1))
split_output c h finished (inr o) =
    (o.1.1, (λ e. let unseen : h.eof ≡ false = o.1.0 in absurd (cc), inr o.0))
