-- ===== src/Scsi/Fields.antt =====
-- Which bytes of the reply are printed under which name.
