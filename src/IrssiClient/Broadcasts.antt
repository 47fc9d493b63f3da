-- ===== src/IrssiClient/Broadcasts.antt =====
-- What the browsers get of server/irssiClient.ts: all the same.
use thelounge.Common.{
  ℕ, ◌≡◌, refl, ◌∙◌, String, true, false, Option, List, [], ◌∷◌, ◌++◌, str_eq, if◌then◌else◌, arith,
  eq_iff, inl, inr, Bool-cases,
}
use thelounge.Common.Dict.{Dict, get, set, delete, has, get-set, get-delete}
use thelounge.IrssiClient.State.{
  IrssiClient, Packet, Effect, broadcast_to_all_browsers, emit_all, keys,
}

-- The events for one browser, in order.
unfoldable pub packets_of : String → List Effect → List Packet
packets_of s [] = []
packets_of s (Effect.emit t p ∷ es) =
    let rest = packets_of s es in if str_eq t s then p ∷ rest else rest
packets_of s (_ ∷ es) = packets_of s es

-- No browser is attached twice.
abbrev pub IsDistinct {ℓ} : {V : Type ℓ} → Dict V → Type 0
IsDistinct [] = Unit
IsDistinct ((k, v) ∷ m) = (has k m ≡ false) × IsDistinct m

-- There are events that each attached browser gets, those and no other, and that no other gets.
pub record Told (browsers : Dict (Option ℕ)) (effects : List Effect) : Type 0 where
  pub packets : List Packet
  pub exactly : (s : String) → packets_of s effects ≡ (if has s browsers then packets else [])

pub packets_of-append :
    (s : String) (es fs : List Effect)
    → packets_of s (es ++ fs) ≡ packets_of s es ++ packets_of s fs
unfolding packets_of
packets_of-append s [] fs = refl
packets_of-append s (Effect.emit t p ∷ es) fs = ground (arith, packets_of-append s es fs)
packets_of-append s (Effect.disconnect_socket _ ∷ es) fs = packets_of-append s es fs
packets_of-append s (Effect.execute_command _ _ ∷ es) fs = packets_of-append s es fs
packets_of-append s (Effect.mark_read _ _ ∷ es) fs = packets_of-append s es fs
packets_of-append s (Effect.close_query _ _ ∷ es) fs = packets_of-append s es fs
packets_of-append s (Effect.disconnect_irssi ∷ es) fs = packets_of-append s es fs
packets_of-append s (Effect.close_storage ∷ es) fs = packets_of-append s es fs
packets_of-append s (Effect.save_user ∷ es) fs = packets_of-append s es fs
packets_of-append s (Effect.save_network_uuids _ ∷ es) fs = packets_of-append s es fs
packets_of-append s (Effect.index _ _ _ _ ∷ es) fs = packets_of-append s es fs
packets_of-append s (Effect.get_unread_count _ ∷ es) fs = packets_of-append s es fs
packets_of-append s (Effect.save_unread_marker _ _ _ ∷ es) fs = packets_of-append s es fs

pub Told-append :
    (m : Dict (Option ℕ)) (es fs : List Effect) → Told m es → Told m fs → Told m (es ++ fs)
Told-append m es fs h k = record {
  packets = h.packets ++ k.packets;
  exactly = λ s. ground (arith, packets_of-append s es fs, h.exactly s, k.exactly s);
}

-- Effects without events.
pub Told-quiet :
    (m : Dict (Option ℕ)) (es : List Effect) → ((s : String) → packets_of s es ≡ []) → Told m es
Told-quiet m es h = record { packets = []; exactly = λ s. ground (arith, h s) }

pub Told-nil : (m : Dict (Option ℕ)) → Told m []
unfolding packets_of
Told-nil m = Told-quiet m [] (λ s. refl)

module _ {ℓ} {V : Type ℓ} where
  packets_of-absent :
      (s : String) (p : Packet) (m : Dict V)
      → has s m ≡ false
      → packets_of s (emit_all p (keys m)) ≡ []
  unfolding packets_of emit_all keys get
  packets_of-absent s p [] h = refl
  packets_of-absent s p ((k, v) ∷ m) h = ground (arith, packets_of-absent s p m)

  packets_of-emit_all :
      (s : String) (p : Packet) (m : Dict V)
      → IsDistinct m
      → packets_of s (emit_all p (keys m)) ≡ (if has s m then p ∷ [] else [])
  unfolding packets_of emit_all keys get
  packets_of-emit_all s p [] d = refl
  packets_of-emit_all s p ((k, v) ∷ m) (new, d) =
      ground (arith, new, eq_iff k s, packets_of-emit_all s p m d, packets_of-absent s p m)

pub Told-broadcast :
    (p : Packet) (this : IrssiClient)
    → IsDistinct this.attached_browsers
    → Told this.attached_browsers (broadcast_to_all_browsers p this)
unfolding broadcast_to_all_browsers
Told-broadcast p this d = record {
  packets = p ∷ [];
  exactly = λ s. packets_of-emit_all s p this.attached_browsers d;
}

module _ {ℓ} {V : Type ℓ} where
  has-set : (k j : String) (v : V) (m : Dict V) → has k m ≡ true → has j (set k v m) ≡ has j m
  has-set k j v m h = ground (arith, get-set k j v m, eq_iff k j)

  has-set_new :
      (k j : String) (v : V) (m : Dict V) → str_eq k j ≡ false → has j (set k v m) ≡ has j m
  has-set_new k j v m h = ground (arith, get-set k j v m, h)

  pub set-IsDistinct : (k : String) (v : V) (m : Dict V) → IsDistinct m → IsDistinct (set k v m)
  unfolding set get
  set-IsDistinct k v [] d = (refl, tt)
  set-IsDistinct k v ((j, w) ∷ m) (new, d) = elim (Bool-cases (str_eq j k)) [
    | inl same ↦ rw same (new, d)
    | inr other ↦ rw other (
      has-set_new k j v m (ground (arith, other, eq_iff j k, eq_iff k j)) ∙ new,
      set-IsDistinct k v m d,
    )
  ]

  has-delete : (k j : String) (m : Dict V) → has j m ≡ false → has j (delete k m) ≡ false
  has-delete k j m h = ground (arith, get-delete k j m, h)

  pub delete-IsDistinct : (k : String) (m : Dict V) → IsDistinct m → IsDistinct (delete k m)
  unfolding delete
  delete-IsDistinct k [] d = tt
  delete-IsDistinct k ((j, w) ∷ m) (new, d) = elim (Bool-cases (str_eq j k)) [
    | inl same ↦ rw same (delete-IsDistinct k m d)
    | inr other ↦ rw other (has-delete k j m new, delete-IsDistinct k m d)
  ]

-- A browser that opens a channel stays the same browser.
pub Told-set :
    (k : String) (v : Option ℕ) (m : Dict (Option ℕ)) (es : List Effect)
    → has k m ≡ true
    → Told (set k v m) es
    → Told m es
Told-set k v m es h t = record {
  packets = t.packets;
  exactly = λ s. ground (arith, t.exactly s, has-set k s v m h);
}

pub packets_of-broadcast :
    (s : String) (p : Packet) (this : IrssiClient)
    → IsDistinct this.attached_browsers
    → packets_of s (broadcast_to_all_browsers p this)
      ≡ (if has s this.attached_browsers then p ∷ [] else [])
unfolding broadcast_to_all_browsers
packets_of-broadcast s p this d = packets_of-emit_all s p this.attached_browsers d
