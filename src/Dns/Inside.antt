-- ===== src/Dns/Inside.antt =====
-- src/app/dns_client.cpp: the bytes that parse_response reads.
