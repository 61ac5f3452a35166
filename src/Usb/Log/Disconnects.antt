-- ===== src/Usb/Log/Disconnects.antt =====
-- What processing the line of a disconnection does.
use storing_devices_logs_tfm.Base.{true, false, ◌≡◌, ap, ◌∙◌, arith, some, none, Bytes, done}
use storing_devices_logs_tfm.StdMap.{find, insert, IsSorted}
use storing_devices_logs_tfm.StdMap.Replace.{set}
use storing_devices_logs_tfm.Usb.{UsbInterface, UsbInfo, initialized}
use storing_devices_logs_tfm.Usb.Checks.{date_of}
use storing_devices_logs_tfm.Usb.Storage.{storage_absent, connection_absent}
use storing_devices_logs_tfm.Usb.Disconnection.{
  first_session, with_session, disconnection_other, disconnection_first, disconnection_again,
}
use storing_devices_logs_tfm.Usb.Log.{State, process_line}
use storing_devices_logs_tfm.Usb.Log.Lines.{
  IsDisconnection, interface_of-IsAbout, information_plain,
}

-- The disconnection of a device that is not for storage changes nothing: its port stays in use.
pub process_disconnection_other :
    (id line : Bytes) (s : State) (e : UsbInterface)
    → IsDisconnection id line
    → find id s.interfaces ≡ some e
    → e.is_storage_device ≡ false
    → process_line line s ≡ done s
unfolding process_line
process_disconnection_other id line s e c n t = ground (
  arith,
  storage_absent line s.interfaces c.about.no_storage,
  c.about.usb_searched,
  information_plain line s.interfaces c.about c.plain,
  connection_absent line s.interfaces c.not_new,
  interface_of-IsAbout line c.about,
  disconnection_other line s.interfaces s.usbs c.gone_searched e,
)

module _ (id line : Bytes) (s : State) (e : UsbInterface) (c : IsDisconnection id line)
    (sorted : IsSorted s.interfaces) (n : find id s.interfaces ≡ some e) (used : e.is_empty ≡ false)
    (stores : e.is_storage_device ≡ true) where
  -- A storage device that is not known yet is entered with its first session.
  pub process_disconnection_first :
      find e.serial_number s.usbs ≡ none
      → process_line line s
        ≡ done (record {
          interfaces = set id initialized s.interfaces;
          usbs = insert e.serial_number (first_session (date_of line) e) s.usbs;
        })
  unfolding process_line
  process_disconnection_first k =
      let i = interface_of-IsAbout line c.about in
      ground (
        arith,
        storage_absent line s.interfaces c.about.no_storage,
        c.about.usb_searched,
        information_plain line s.interfaces c.about c.plain,
        connection_absent line s.interfaces c.not_new,
        i,
        disconnection_first line s.interfaces s.usbs c.gone_searched e
            (ap (λ k. find k s.interfaces) i ∙ n) sorted used stores k,
      )

  -- A known one gets one more session.
  pub process_disconnection_again :
      (u : UsbInfo)
      → IsSorted s.usbs
      → find e.serial_number s.usbs ≡ some u
      → process_line line s
        ≡ done (record {
          interfaces = set id initialized s.interfaces;
          usbs = set e.serial_number (with_session (date_of line) e u) s.usbs;
        })
  unfolding process_line
  process_disconnection_again u sorted' k =
      let i = interface_of-IsAbout line c.about in
      ground (
        arith,
        storage_absent line s.interfaces c.about.no_storage,
        c.about.usb_searched,
        information_plain line s.interfaces c.about c.plain,
        connection_absent line s.interfaces c.not_new,
        i,
        disconnection_again line s.interfaces s.usbs c.gone_searched e
            (ap (λ k. find k s.interfaces) i ∙ n) sorted used stores u sorted' k,
      )
