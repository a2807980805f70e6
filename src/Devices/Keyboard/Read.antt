-- ===== src/Devices/Keyboard/Read.antt =====
-- What `KeyboardDevice::read` of src/kernel/devices/KeyboardDevice.cpp gives its caller.
use ow_os.Common.{
  ℕ, zero, suc, ◌+◌, ◌*◌, ◌-◌, ◌/◌, ◌<◌, min, ◌∙◌, ◌≡◌, refl, sym, ap, false, not, ◌||◌, ltb, List,
  [], ◌∷◌, ◌++◌, take, drop, length, arith, ok,
}
use ow_os.Libk.CircularBuffer
use ow_os.Libk.CircularBuffer.{CircularBuffer, is_empty}
use ow_os.Libk.CircularBuffer.Refine.{Holds, pop-Holds}
use ow_os.Devices.Keyboard.{KeyEvent, event_size, copy_event, read_from, read}

module _ (image : KeyEvent → List ℕ)
    (image_length : (e : KeyEvent) → length (image e) ≡ event_size) where
  -- The bytes of the last of the events at the start of the buffer, with no event the buffer.
  unfoldable pub last_over : List ℕ → List KeyEvent → List ℕ
  last_over buffer [] = buffer
  last_over buffer (e ∷ []) = image e ++ drop event_size buffer
  last_over buffer (e ∷ d ∷ q) = last_over buffer (d ∷ q)

  drop-append : (a b : List ℕ) → drop (length a) (a ++ b) ≡ b
  drop-append [] b = refl
  drop-append (x ∷ a) b = drop-append a b

  copied_over :
      (buffer : List ℕ) (e : KeyEvent)
      → drop event_size (copy_event image e buffer) ≡ drop event_size buffer
  unfolding copy_event
  copied_over buffer e =
      ap (λ n. drop n (image e ++ drop event_size buffer)) (sym (image_length e))
      ∙ drop-append (image e) _

  last_over-copy_event :
      (buffer : List ℕ) (e : KeyEvent) (q : List KeyEvent)
      → last_over (copy_event image e buffer) q ≡ last_over buffer (e ∷ q)
  unfolding last_over copy_event
  last_over-copy_event buffer e [] = refl
  last_over-copy_event buffer e (d ∷ []) = ap (λ t. image d ++ t) (copied_over buffer e)
  last_over-copy_event buffer e (d ∷ c ∷ q) = last_over-copy_event buffer e (c ∷ q)

  -- The rounds of the loop, when the bytes that are left hold n events.
  read_from_lem :
      (fuel n done bytes total : ℕ) (buffer : List ℕ) (events : CircularBuffer KeyEvent)
      (q : List KeyEvent)
      → Holds events q
      → bytes - done < fuel
      → (bytes - done) / event_size ≡ n
      → done + min n (length q) * event_size ≡ total
      → (events' : CircularBuffer KeyEvent) × (read_from image fuel done bytes buffer events
          ≡ ok (total, last_over buffer (take n q), events'))
        × Holds events' (drop n q)
  unfolding read_from last_over
  read_from_lem zero n done bytes total buffer events q h fl e t = absurd (omega arith)
  read_from_lem (suc fuel) zero done bytes total buffer events q h fl e t =
      (events, ground arith, h)
  read_from_lem (suc fuel) (suc n) done bytes total buffer events [] h fl e t =
      (events, ground (arith, h.size_eq), h)
  read_from_lem (suc fuel) (suc n) done bytes total buffer events (x ∷ q) h fl e t =
      let rest =
        read_from_lem fuel n (done + event_size) bytes total (copy_event image x buffer) popped.0 q
          popped.3 (omega arith) (omega arith) (omega arith) in
      (
        rest.0,
        rw going (rw popped.1 (rw (← last_over-copy_event buffer x (take n q)) rest.1)),
        rest.2,
      )
    where
      going : (not (ltb done bytes) || is_empty events || ltb (bytes - done) event_size) ≡ false
      going = ground (arith, h.size_eq)

      popped :
          (c : CircularBuffer KeyEvent) × (CircularBuffer.pop events ≡ ok (x, c))
          × (c.capacity ≡ events.capacity)
          × Holds c q
      popped = pop-Holds events x q h

  -- A read takes as many of the oldest events as fit the bytes asked for and counts their bytes,
  -- but the caller's buffer gets the last of them only, at its start.
  pub read_lem :
      (bytes : ℕ) (buffer : List ℕ) (events : CircularBuffer KeyEvent) (q : List KeyEvent)
      → Holds events q
      → (events' : CircularBuffer KeyEvent) × (read image bytes buffer events
          ≡ ok (
            min (bytes / event_size) (length q) * event_size,
            last_over buffer (take (bytes / event_size) q),
            events',
          ))
        × Holds events' (drop (bytes / event_size) q)
  unfolding read
  read_lem bytes buffer events q h =
      read_from_lem (suc bytes) (bytes / event_size) 0 bytes
        (min (bytes / event_size) (length q) * event_size) buffer events q h (omega arith)
        (omega arith) (omega arith)
