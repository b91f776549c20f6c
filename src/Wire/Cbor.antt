-- ===== src/Wire/Cbor.antt =====
-- A CBOR value of the wire's subset (`Cbor` in wire-rs/src/cbor.rs). A float is its 64 bits.
use glade.Prelude.{ℕ, ℤ, Bool, Bytes, Text}

mutual
  pub data Cbor : Type 0 where
    int : ℤ → Cbor
    float : ℕ → Cbor
    bytes : Bytes → Cbor
    text : Text → Cbor
    array : Items → Cbor
    map : Entries → Cbor
    bool : Bool → Cbor
    null : Cbor

  pub data Items : Type 0 where
    nil : Items
    cons : Cbor → Items → Items

  pub data Entries : Type 0 where
    end : Entries
    entry : ℤ → Cbor → Entries → Entries
