-- ===== src/Lookup/Overruns.antt =====
-- The write behind the buffer for the name in __dns_lookup_async of eloop/dns.c.
