-- ===== src/Usb/Log/Events/Shown.antt =====
-- A sorted map and the function that it stands for, under the two writes of the checks.
use storing_devices_logs_tfm.Base.{◌≡◌, arith, some, none, Bytes, equal_iff}
use storing_devices_logs_tfm.StdMap.{find, insert, IsSorted, StdMap}
use storing_devices_logs_tfm.StdMap.Order.{insert-IsSorted}
use storing_devices_logs_tfm.StdMap.Lookup.{find-insert}
use storing_devices_logs_tfm.StdMap.Replace.{set, find-set, set-IsSorted}
use storing_devices_logs_tfm.Usb.Log.Events.{Table, write, change}

pub record Shows {V : Type 0} (m : StdMap V) (f : Table V) : Type 0 where
  pub sorted : IsSorted m
  pub found : (k : Bytes) → find k m ≡ f k

module _ {V : Type 0} (k : Bytes) (v : V) (m : StdMap V) (f : Table V) (shown : Shows m f) where
  pub set-Shows : (w : V) → find k m ≡ some w → Shows (set k v m) (write k v f)
  set-Shows w n = record {
    sorted = set-IsSorted k v m shown.sorted;
    found = λ j. ground (arith, find-set j k v w m n, shown.found j);
  }

  pub insert-Shows : find k m ≡ none → Shows (insert k v m) (write k v f)
  insert-Shows n = record {
    sorted = insert-IsSorted k v m shown.sorted;
    found = λ j. ground (arith, find-insert j k v m shown.sorted, n, shown.found j);
  }

module _ {V : Type 0} (k : Bytes) (g : V → V) (m : StdMap V) (f : Table V) (shown : Shows m f) where
  pub change-absent : find k m ≡ none → Shows m (change k g f)
  change-absent n = record {
    sorted = shown.sorted;
    found = λ j. ground (arith, n, shown.found j, shown.found k);
  }

  pub change-present : (w : V) → find k m ≡ some w → Shows (set k (g w) m) (change k g f)
  change-present w n = record {
    sorted = set-IsSorted k (g w) m shown.sorted;
    found = λ j. ground (arith, find-set j k (g w) w m n, shown.found j, shown.found k);
  }

  pub change-same : (w : V) → find k m ≡ some w → g w ≡ w → Shows m (change k g f)
  change-same w n same = record {
    sorted = shown.sorted;
    found = λ j. ground (arith, n, same, equal_iff k j, shown.found j, shown.found k);
  }
